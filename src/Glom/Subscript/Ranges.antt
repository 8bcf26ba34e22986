-- ===== src/Glom/Subscript/Ranges.antt =====
-- What `subscript` computes: its arguments name ranges, and it returns their members in order.
use desh.Common.{
  ℕ, zero, suc, ◌≤◌, ◌≡◌, refl, ap, sym, ◌∙◌, List, [], ◌∷◌, ◌++◌, ltb, if◌then◌else◌, Str, length,
  Bool-cases, inl, inr, arith, append_assoc, append-nil,
}
use desh.Glom.Terms.{ℤ, Outcome}
use desh.Glom.Subscript.{
  Cursor, is_dots, positive, visit, or_null, ended, to_high, subscript_loop, from_start, start,
  subscript,
}
use desh.Glom.Subscript.Visits.{slice, IsAt, visit-Visited}

-- A range, and those behind it.
abbrev pub also {ℓ} : {A : Type ℓ} → A → Outcome (List A) → Outcome (List A)
also r (Outcome.value rs) = Outcome.value (r ∷ rs)
also r (Outcome.failed f) = Outcome.failed f
also r Outcome.null_read = Outcome.null_read

abbrev pub min : ℕ → ℕ → ℕ
min a b = if ltb a b then a else b

-- The ranges that the arguments name, in a list of length `len`.
module _ {T : Type 0} (getstr : T → Str) (atoi : Str → ℤ) (len : ℕ) where
  abbrev pub number : T → (ℕ → Outcome (List (ℕ × ℕ))) → Outcome (List (ℕ × ℕ))
  number t next = positive (atoi (getstr t)) (getstr t) next

  unfoldable pub ranges : List T → Outcome (List (ℕ × ℕ))
  ranges [] = Outcome.value []
  ranges (t ∷ []) = number t (λ lo. Outcome.value ((lo, lo) ∷ []))
  ranges (t ∷ d ∷ []) =
      let next = ranges (d ∷ []) in
      number t
        (λ lo. if is_dots (getstr d) then Outcome.value ((lo, len) ∷ []) else also (lo, lo) next)
  ranges (t ∷ d ∷ u ∷ subs) =
      let next = ranges (d ∷ u ∷ subs) in
      let after = ranges subs in
      number t (λ lo.
        if is_dots (getstr d)
        then number u (λ hi. also (lo, min len hi) after)
        else also (lo, lo) next)

  unfoldable pub open_ranges : List T → Outcome (List (ℕ × ℕ))
  unfolding ranges
  open_ranges [] = Outcome.value ((1, len) ∷ [])
  open_ranges (u ∷ subs) = number u (λ hi. also (1, min len hi) (ranges subs))

  unfoldable pub all_ranges : List T → Outcome (List (ℕ × ℕ))
  unfolding open_ranges ranges
  all_ranges [] = Outcome.value []
  all_ranges (t ∷ subs) = if is_dots (getstr t) then open_ranges subs else ranges (t ∷ subs)

unfoldable pub members {ℓ} : {A : Type ℓ} → List A → List (ℕ × ℕ) → List A
members xs [] = []
members xs ((lo, hi) ∷ rs) = slice xs lo hi ++ members xs rs

-- The members of the ranges behind those that are there.
unfoldable pub select {ℓ} :
    {A : Type ℓ} → List A → List A → Outcome (List (ℕ × ℕ)) → Outcome (List A)
unfolding members
select xs before (Outcome.value rs) = Outcome.value (before ++ members xs rs)
select xs before (Outcome.failed f) = Outcome.failed f
select xs before Outcome.null_read = Outcome.null_read

module _ {ℓ} {A : Type ℓ} {T : Type 0} (getstr : T → Str) (atoi : Str → ℤ) (xs : List A) where
  select-also :
      (before : List A) (lo hi : ℕ) (o : Outcome (List (ℕ × ℕ)))
      → select xs (before ++ slice xs lo hi) o ≡ select xs before (also (lo, hi) o)
  unfolding select members
  select-also before lo hi (Outcome.value rs) =
      ap Outcome.value (append_assoc before (slice xs lo hi) (members xs rs))
  select-also before lo hi (Outcome.failed f) = refl
  select-also before lo hi Outcome.null_read = refl

  -- A round and what follows it.
  round-also :
      (lo hi : ℕ) (st : Cursor A) (next : Cursor A → Outcome (List A)) (o : Outcome (List (ℕ × ℕ)))
      → IsAt xs st
      → 1 ≤ lo
      → (lo ≤ length xs → hi ≤ length xs)
      → ((st' : Cursor A) → IsAt xs st' → next st' ≡ select xs st'.result o)
      → or_null (visit xs lo hi st) next ≡ select xs st.result (also (lo, hi) o)
  round-also lo hi st next o at l h follows =
      let v = visit-Visited xs lo hi st at l h in
      rw v.runs
        (follows v.next v.at ∙ ap (λ r. select xs r o) v.adds ∙ select-also st.result lo hi o)

  positive-select :
      (z : ℤ) (s : Str) (before : List A) (f : ℕ → Outcome (List A))
      (g : ℕ → Outcome (List (ℕ × ℕ)))
      → ((n : ℕ) → 1 ≤ n → f n ≡ select xs before (g n))
      → positive z s f ≡ select xs before (positive z s g)
  unfolding select
  positive-select (ℤ.pos zero) s before f g h = refl
  positive-select (ℤ.pos (suc n)) s before f g h = h (suc n) (omega arith)
  positive-select (ℤ.negsuc n) s before f g h = refl

  ended-select : (st : Cursor A) → ended getstr atoi xs st ≡ select xs st.result (Outcome.value [])
  unfolding select members
  ended-select st = ap Outcome.value (sym (append-nil st.result))

  -- A round for one member, or for a range up to the end or up to some member.
  one-also :
      (lo : ℕ) (st : Cursor A) (next : Cursor A → Outcome (List A)) (o : Outcome (List (ℕ × ℕ)))
      → IsAt xs st
      → 1 ≤ lo
      → ((st' : Cursor A) → IsAt xs st' → next st' ≡ select xs st'.result o)
      → or_null (visit xs lo lo st) next ≡ select xs st.result (also (lo, lo) o)
  one-also lo st next o at l follows = round-also lo lo st next o at l (λ u. u) follows

  to_high-also :
      (lo : ℕ) (u : T) (st : Cursor A) (next : Cursor A → Outcome (List A))
      (o : Outcome (List (ℕ × ℕ)))
      → IsAt xs st
      → 1 ≤ lo
      → ((st' : Cursor A) → IsAt xs st' → next st' ≡ select xs st'.result o)
      → to_high getstr atoi xs lo u st next
        ≡ select xs st.result
            (number getstr atoi (length xs) u (λ hi. also (lo, min (length xs) hi) o))
  to_high-also lo u st next o at l follows =
      positive-select (atoi (getstr u)) (getstr u) st.result
        (λ hi. or_null (visit xs lo (min (length xs) hi) st) next)
        (λ hi. also (lo, min (length xs) hi) o)
        (λ hi h. round-also lo (min (length xs) hi) st next o at l (λ q. ground arith) follows)

  subscript_loop-ranges :
      (subs : List T) (st : Cursor A)
      → IsAt xs st
      → subscript_loop getstr atoi xs subs st
        ≡ select xs st.result (ranges getstr atoi (length xs) subs)
  unfolding subscript_loop ranges
  subscript_loop-ranges [] st at = ended-select st
  subscript_loop-ranges (t ∷ []) st at =
      positive-select (atoi (getstr t)) (getstr t) st.result
        (λ lo. or_null (visit xs lo lo st) (ended getstr atoi xs))
        (λ lo. Outcome.value ((lo, lo) ∷ []))
        (λ lo l.
          one-also lo st (ended getstr atoi xs) (Outcome.value []) at l (λ s a. ended-select s))
  subscript_loop-ranges (t ∷ d ∷ []) st at = elim (Bool-cases (is_dots (getstr d))) [
    | inl e ↦ rw e (
        positive-select (atoi (getstr t)) (getstr t) st.result
          (λ lo. or_null (visit xs lo (length xs) st) (ended getstr atoi xs))
          (λ lo. Outcome.value ((lo, length xs) ∷ []))
          (λ lo l.
            round-also lo (length xs) st (ended getstr atoi xs) (Outcome.value []) at l
              (λ u. omega arith) (λ s a. ended-select s)))
    | inr e ↦ rw e (
        positive-select (atoi (getstr t)) (getstr t) st.result
          (λ lo. or_null (visit xs lo lo st) (subscript_loop getstr atoi xs (d ∷ [])))
          (λ lo. also (lo, lo) (ranges getstr atoi (length xs) (d ∷ [])))
          (λ lo l.
            one-also lo st (subscript_loop getstr atoi xs (d ∷ []))
              (ranges getstr atoi (length xs) (d ∷ [])) at l (subscript_loop-ranges (d ∷ []))))
  ]
  subscript_loop-ranges (t ∷ d ∷ u ∷ subs) st at = elim (Bool-cases (is_dots (getstr d))) [
    | inl e ↦ rw e (
        positive-select (atoi (getstr t)) (getstr t) st.result
          (λ lo. to_high getstr atoi xs lo u st (subscript_loop getstr atoi xs subs))
          (λ lo.
            number getstr atoi (length xs) u
              (λ hi. also (lo, min (length xs) hi) (ranges getstr atoi (length xs) subs)))
          (λ lo l.
            to_high-also lo u st (subscript_loop getstr atoi xs subs)
              (ranges getstr atoi (length xs) subs) at l (subscript_loop-ranges subs)))
    | inr e ↦ rw e (
        positive-select (atoi (getstr t)) (getstr t) st.result
          (λ lo. or_null (visit xs lo lo st) (subscript_loop getstr atoi xs (d ∷ u ∷ subs)))
          (λ lo. also (lo, lo) (ranges getstr atoi (length xs) (d ∷ u ∷ subs)))
          (λ lo l.
            one-also lo st (subscript_loop getstr atoi xs (d ∷ u ∷ subs))
              (ranges getstr atoi (length xs) (d ∷ u ∷ subs)) at l
              (subscript_loop-ranges (d ∷ u ∷ subs))))
  ]

  start-IsAt : IsAt xs (start getstr atoi xs)
  start-IsAt = record { lower = omega arith; upper = omega arith; place = refl }

  from_start-open_ranges :
      (subs : List T)
      → from_start getstr atoi xs subs (start getstr atoi xs)
        ≡ select xs [] (open_ranges getstr atoi (length xs) subs)
  unfolding from_start open_ranges
  from_start-open_ranges [] =
      round-also 1 (length xs) (start getstr atoi xs) (ended getstr atoi xs) (Outcome.value [])
        start-IsAt (omega arith) (λ u. omega arith) (λ s a. ended-select s)
  from_start-open_ranges (u ∷ subs) =
      to_high-also 1 u (start getstr atoi xs) (subscript_loop getstr atoi xs subs)
        (ranges getstr atoi (length xs) subs) start-IsAt (omega arith) (subscript_loop-ranges subs)

  -- For every list and subscripts, `subscript` returns the members of the ranges that the subscripts name, in order, or fails at the first number below 1 as the reading of the ranges does.
  pub subscript-select :
      (subs : List T)
      → subscript getstr atoi xs subs ≡ select xs [] (all_ranges getstr atoi (length xs) subs)
  unfolding subscript all_ranges
  subscript-select [] = ended-select (start getstr atoi xs)
  subscript-select (t ∷ subs) = elim (Bool-cases (is_dots (getstr t))) [
    | inl e ↦ rw e (from_start-open_ranges subs)
    | inr e ↦ rw e (subscript_loop-ranges (t ∷ subs) (start getstr atoi xs) start-IsAt)
  ]
