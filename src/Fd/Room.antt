-- ===== src/Fd/Room.antt =====
-- src/fd.c: the growth of the stack in `pushdefer`, which takes its entries off the list of reserved
-- descriptors and puts them back.
use desh.Common.{
  ℕ, zero, suc, ◌+◌, ◌<◌, ◌≤◌, Bool, true, Option, none, some, List, [], ◌∷◌, ◌++◌, ◌==◌, length,
  leb, ◌≡◌, refl, ◌∙◌, if_split, arith,
}
use desh.Fd.State.{
  Kernel, Cell, deferred, cell_eq, Reserve, FdState, Effect, done, and_then, registerfd,
}
use desh.Fd.Deferred.{remove_reserved, unregisterfd, unregister_each, register_each, make_room}
use desh.Fd.Count.{
  one, count, Removed, remove_reserved-Removed, count-end, none-is_reserved, among, one-other,
  among-within,
}

module _ {K : Type 0} where
  -- The state with another list.
  abbrev pub listed : FdState K → List Reserve → FdState K
  listed st rs = record st { reserved = rs }

  -- A call that only changes the list, by `change`.
  Relists : (st : FdState K) → Effect K Unit → (List Reserve → Type 0) → Type 0
  Relists st r change = (rs : List Reserve) × (r ≡ done tt (listed st rs)) × change rs

  -- Each entry of the stack is on the list once.
  unfoldable pub AllListed : FdState K → Type 0
  AllListed st = (j : ℕ) → j < length st.deftab → count (deferred j) st.reserved ≡ 1

module _ {K : Type 0} (os : Kernel K) where
  unregisterfd-Relists :
      (p : Cell) (st : FdState K)
      → count p st.reserved ≡ 1
      → Relists st
          (unregisterfd os p st)
          (λ rs. (q : Cell) → count q st.reserved ≡ one (cell_eq p q) + count q rs)
  unfolding Relists unregisterfd Removed
  unregisterfd-Relists p st h =
      go (remove_reserved p st.reserved) (remove_reserved-Removed p st.reserved)
    where
      go :
          (o : Option (List Reserve))
          → Removed p st.reserved o
          → (rs : List Reserve) × (elim o [
            | none ↦ Effect.assert_failed
            | some qs ↦ done tt (record st { reserved = qs })
          ]
              ≡ done tt (listed st rs))
            × ((q : Cell) → count q st.reserved ≡ one (cell_eq p q) + count q rs)
      go none k = absurd (omega (arith, h, k))
      go (some qs) k = (qs, refl, k)

  unregister_each-Relists :
      (n i : ℕ) (st : FdState K)
      → ((j : ℕ) → i ≤ j → j < i + n → count (deferred j) st.reserved ≡ 1)
      → Relists st
          (unregister_each os n i st)
          (λ rs. (q : Cell) → count q st.reserved ≡ among n i q + count q rs)
  unfolding Relists unregister_each
  unregister_each-Relists zero i st h = (st.reserved, refl, λ q. omega arith)
  unregister_each-Relists (suc n) i st h =
      let (rs, e, k) = unregisterfd-Relists (deferred i) st (h i (omega arith) (omega arith)) in
      let (qs, f, l) = unregister_each-Relists n (suc i) (listed st rs) (λ j a b.
        left (i == j) (one-other i j a) (k (deferred j)) (h j (omega arith) (omega arith))) in
      (qs, rw e f, λ q. omega (arith, k q, l q))
    where
      left : {m n : ℕ} (b : Bool) → one b ≡ 0 → m ≡ one b + n → m ≡ 1 → n ≡ 1
      left b x y z = omega arith

  register_each-Relists :
      (n i : ℕ) (st : FdState K)
      → ((j : ℕ) → i ≤ j → j < i + n → count (deferred j) st.reserved ≡ 0)
      → Relists st
          (register_each os n i st)
          (λ rs. (q : Cell) → count q rs ≡ among n i q + count q st.reserved)
  unfolding Relists register_each registerfd
  register_each-Relists zero i st h = (st.reserved, refl, λ q. omega arith)
  register_each-Relists (suc n) i st h =
      let rs = st.reserved ++ record { fdp = deferred i; closeonfork = true } ∷ [] in
      let (qs, f, l) = register_each-Relists n (suc i) (listed st rs) (λ j a b.
        count-end (deferred j) (deferred i) true st.reserved
        ∙ sum (one-other i j a) (h j (omega arith) (omega arith))) in
      (
        qs,
        rw (none-is_reserved (deferred i) st.reserved (h i (omega arith) (omega arith))) f,
        λ q. omega (arith, l q, count-end q (deferred i) true st.reserved),
      )
    where
      sum : {m n : ℕ} → m ≡ 0 → n ≡ 0 → m + n ≡ 0
      sum x y = omega arith

  -- With room made, the same pointers are on the list.
  pub make_room_lem :
      (st : FdState K)
      → AllListed st
      → (rs : List Reserve) × (m : ℕ) × (make_room os st
          ≡ done tt (record st { reserved = rs; defmax = m }))
        × ((q : Cell) → count q rs ≡ count q st.reserved)
  unfolding make_room AllListed Relists
  make_room_lem st h =
      if_split
        (λ r.
          (rs : List Reserve) × (m : ℕ) × (r ≡ done tt (record st { reserved = rs; defmax = m }))
          × ((q : Cell) → count q rs ≡ count q st.reserved))
        (leb st.defmax (length st.deftab)) _ _ (λ e. grown)
        (λ e. (st.reserved, st.defmax, refl, λ q. refl))
    where
      none_left : {m n k : ℕ} → m ≡ 1 → k ≡ m + n → k ≡ 1 → n ≡ 0
      none_left x y z = omega arith

      grown :
          (rs : List Reserve) × (m : ℕ) × (and_then
              (unregister_each os (length st.deftab) 0 st)
              (λ u st'.
                register_each os (length st.deftab) 0 (record st' { defmax = st'.defmax + 10 }))
            ≡ done tt (record st { reserved = rs; defmax = m }))
          × ((q : Cell) → count q rs ≡ count q st.reserved)
      grown =
          let n = length st.deftab in
          let (rs, e, k) = unregister_each-Relists n 0 st (λ j a b. h j (omega arith)) in
          let (qs, f, l) =
            register_each-Relists n 0 (record st { reserved = rs; defmax = st.defmax + 10 })
              (λ j a b. none_left (among-within n 0 j a b) (k (deferred j)) (h j (omega arith))) in
          (qs, st.defmax + 10, rw e f, λ q. omega (arith, k q, l q))
