-- ===== src/Glom/Subscript/Visits.antt =====
-- One round of `subscript` copies the range, from wherever the round before it stopped.
use desh.Common.{
  suc_add, ℕ, zero, suc, ◌+◌, ◌-◌, ◌≤◌, ◌<◌, ◌≡◌, refl, ap, sym, ◌∙◌, Option, some, List, [], ◌∷◌,
  ◌++◌, ltb, length, take, drop, Bool-cases, inl, inr, arith, append_assoc, append-nil, length-drop,
}
use desh.Glom.Subscript.{Cursor, skip, copy, copy_after, rewind, visit}

-- The members of a list from `lo` to `hi`, counted from 1.
unfoldable pub slice {ℓ} : {A : Type ℓ} → List A → ℕ → ℕ → List A
slice xs lo hi = take (hi + 1 - lo) (drop (lo - 1) xs)

module _ {ℓ} {A : Type ℓ} where
  -- The place is that of the counter, at most behind the end.
  pub record IsAt (xs : List A) (st : Cursor A) : Type ℓ where
    pub lower : 1 ≤ st.counter
    pub upper : st.counter ≤ length xs + 1
    pub place : st.current ≡ drop (st.counter - 1) xs

  skip-drop : (n : ℕ) (ys : List A) → n ≤ length ys → skip n ys ≡ some (drop n ys)
  unfolding skip
  skip-drop zero ys h = refl
  skip-drop (suc n) [] h = absurd (omega arith)
  skip-drop (suc n) (y ∷ ys) h = skip-drop n ys (omega arith)

  copy-take :
      (n : ℕ) (ys result : List A)
      → n ≤ length ys
      → copy n ys result ≡ some (drop n ys, result ++ take n ys)
  unfolding copy
  copy-take zero ys result h = ap (λ r. some (ys, r)) (sym (append-nil result))
  copy-take (suc n) [] result h = absurd (omega arith)
  copy-take (suc n) (y ∷ ys) result h =
      copy-take n ys (result ++ y ∷ []) (omega arith)
      ∙ ap (λ r. some (drop n ys, r)) (append_assoc result (y ∷ []) (take n ys))

  drop_nil : (m : ℕ) → drop {A = A} m [] ≡ []
  drop_nil zero = refl
  drop_nil (suc m) = refl

  take_nil : (m : ℕ) → take {A = A} m [] ≡ []
  take_nil zero = refl
  take_nil (suc m) = refl

  drop_all : (m : ℕ) (ys : List A) → length ys ≤ m → drop m ys ≡ []
  drop_all m [] h = drop_nil m
  drop_all zero (y ∷ ys) h = absurd (omega arith)
  drop_all (suc m) (y ∷ ys) h = drop_all m ys (omega arith)

  drop-drop : (m n : ℕ) (ys : List A) → drop m (drop n ys) ≡ drop (n + m) ys
  drop-drop m zero ys = ap (λ k. drop k ys) (omega arith)
  drop-drop m (suc n) [] = drop_nil m ∙ sym (drop_nil (suc n + m))
  drop-drop m (suc n) (y ∷ ys) = drop-drop m n ys ∙ ap (λ k. drop k (y ∷ ys)) (sym (suc_add n m))

  rewind-IsAt : (xs : List A) (lo : ℕ) (st : Cursor A) → IsAt xs st → IsAt xs (rewind xs lo st)
  rewind-IsAt xs lo st at = elim (Bool-cases (ltb lo st.counter)) [
    | inl e ↦ rw e (record { lower = omega arith; upper = omega arith; place = refl })
    | inr e ↦ rw e at
  ]

  rewind-counter : (xs : List A) (lo : ℕ) (st : Cursor A) → 1 ≤ lo → (rewind xs lo st).counter ≤ lo
  rewind-counter xs lo st h = elim (Bool-cases (ltb lo st.counter)) [
    | inl e ↦ rw e h
    | inr e ↦ rw e (ground arith)
  ]

  rewind-result : (xs : List A) (lo : ℕ) (st : Cursor A) → (rewind xs lo st).result ≡ st.result
  rewind-result xs lo st = elim (Bool-cases (ltb lo st.counter)) [
    | inl e ↦ rw e refl
    | inr e ↦ rw e refl
  ]

  -- The range is empty if it starts behind the end.
  slice_behind : (xs : List A) (lo hi : ℕ) → length xs < lo → slice xs lo hi ≡ []
  unfolding slice
  slice_behind xs lo hi h =
      ap (take (hi + 1 - lo)) (drop_all (lo - 1) xs (omega arith)) ∙ take_nil (hi + 1 - lo)

  -- What a round does: it never reads past the end.
  pub record Visited (xs : List A) (lo hi : ℕ) (st : Cursor A) (o : Option (Cursor A))
      : Type ℓ where
    pub next : Cursor A
    pub runs : o ≡ some next
    pub at : IsAt xs next
    pub adds : next.result ≡ st.result ++ slice xs lo hi

  copy_after-Visited :
      (xs : List A) (lo hi : ℕ) (st : Cursor A)
      → IsAt xs st
      → 1 ≤ lo
      → st.counter ≤ lo
      → lo ≤ length xs
      → hi ≤ length xs
      → Visited xs lo hi st (copy_after lo hi st.result (skip (lo - st.counter) st.current))
  unfolding copy_after slice
  copy_after-Visited xs lo hi st at l c u h =
      let n = hi + 1 - lo in
      let ys = drop (lo - 1) xs in
      let skipped : skip (lo - st.counter) st.current ≡ some ys =
        ap (skip (lo - st.counter)) at.place
        ∙ skip-drop (lo - st.counter) (drop (st.counter - 1) xs)
            (omega (arith, length-drop (st.counter - 1) xs, at.lower))
        ∙ ap some (drop-drop (lo - st.counter) (st.counter - 1) xs)
        ∙ ap (λ k. some (drop k xs)) (omega (arith, at.lower)) in
      let copied = copy-take n ys st.result (omega (arith, length-drop (lo - 1) xs)) in
      record {
        next = record { counter = lo + n; current = drop n ys; result = st.result ++ take n ys };
        runs = rw (skipped, copied) refl;
        at = record {
          lower = omega arith;
          upper = omega arith;
          place = drop-drop n (lo - 1) xs ∙ ap (λ k. drop k xs) (omega arith);
        };
        adds = refl;
      }

  pub visit-Visited :
      (xs : List A) (lo hi : ℕ) (st : Cursor A)
      → IsAt xs st
      → 1 ≤ lo
      → (lo ≤ length xs → hi ≤ length xs)
      → Visited xs lo hi st (visit xs lo hi st)
  unfolding visit
  visit-Visited xs lo hi st at l h = elim (Bool-cases (ltb (length xs) lo)) [
    | inl e ↦ rw e (record {
      next = st;
      runs = refl;
      at = at;
      adds =
          sym (append-nil st.result)
          ∙ ap (λ r. st.result ++ r) (sym (slice_behind xs lo hi (ground arith)));
    })
    | inr e ↦
        let st' = rewind xs lo st in
        let done =
          copy_after-Visited xs lo hi st' (rewind-IsAt xs lo st at) l (rewind-counter xs lo st l)
            (ground arith) (h (ground arith)) in
        rw e (record {
          next = done.next;
          runs = done.runs;
          at = done.at;
          adds = done.adds ∙ ap (λ r. r ++ slice xs lo hi) (rewind-result xs lo st);
        })
  ]
