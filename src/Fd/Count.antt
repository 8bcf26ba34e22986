-- ===== src/Fd/Count.antt =====
-- src/fd.c: how often a pointer is on the list of reserved descriptors.
use desh.Common.{
  ℕ, zero, suc, ◌+◌, ◌<◌, ◌≤◌, Bool, true, false, Option, none, some, List, [], ◌∷◌, ◌++◌, ◌==◌,
  ==_iff, ◌≡◌, refl, sym, ap, ◌∙◌, if_split, arith, Bool-cases, inl, inr,
}
use desh.Fd.State.{Cell, deferred, variable, cell_eq, Reserve, is_reserved}
use desh.Fd.Deferred.{last_first, remove_reserved}

abbrev pub one : Bool → ℕ
one true = 1
one false = 0

-- How often a pointer is on the list.
abbrev pub count : Cell → List Reserve → ℕ
count p [] = 0
count p (r ∷ rs) = one (cell_eq r.fdp p) + count p rs

cell_eq-equal : (p q : Cell) → cell_eq p q ≡ true → p ≡ q
cell_eq-equal (deferred i) (deferred j) h = ap deferred ((==_iff i j).0 h)
cell_eq-equal (deferred i) (variable j) h = ground arith
cell_eq-equal (variable i) (deferred j) h = ground arith
cell_eq-equal (variable i) (variable j) h = ap variable ((==_iff i j).0 h)

count-last_first : (q : Cell) (rs : List Reserve) → count q (last_first rs) ≡ count q rs
count-last_first q [] = refl
count-last_first q (r ∷ []) = refl
count-last_first q (r ∷ s ∷ rs) = go (last_first (s ∷ rs)) (count-last_first q (s ∷ rs))
  where
    go :
        (xs : List Reserve)
        → count q xs ≡ count q (s ∷ rs)
        → count q (elim xs [ [] ↦ r ∷ [] | ◌∷◌ l ls ↦ l ∷ r ∷ ls ]) ≡ count q (r ∷ s ∷ rs)
    go [] h = omega (arith, h)
    go (l ∷ ls) h = omega (arith, h)

-- What `remove_reserved` returns.
unfoldable pub Removed : Cell → List Reserve → Option (List Reserve) → Type 0
Removed p rs none = count p rs ≡ 0
Removed p rs (some qs) = (q : Cell) → count q rs ≡ one (cell_eq p q) + count q qs

pub remove_reserved-Removed : (p : Cell) (rs : List Reserve) → Removed p rs (remove_reserved p rs)
unfolding Removed remove_reserved
remove_reserved-Removed p [] = refl
remove_reserved-Removed p (r ∷ rs) =
    if_split (Removed p (r ∷ rs)) (cell_eq r.fdp p) _ _
      (λ e q.
        ap (λ c. one (cell_eq c q) + count q rs) (cell_eq-equal r.fdp p e)
        ∙ ap (λ n. one (cell_eq p q) + n) (sym (count-last_first q rs)))
      (λ e. go e (remove_reserved p rs) (remove_reserved-Removed p rs))
  where
    zero_plus : (n : ℕ) → n ≡ 0 → 0 + n ≡ 0
    zero_plus n h = omega arith

    go :
        cell_eq r.fdp p ≡ false
        → (o : Option (List Reserve)) → Removed p rs o
        → Removed p (r ∷ rs) (elim o [ none ↦ none | some qs ↦ some (r ∷ qs) ])
    go e none h = rw e (zero_plus (count p rs) h)
    go e (some qs) h = λ q. omega (arith, h q)

pub count-end :
    (q p : Cell) (b : Bool) (rs : List Reserve)
    → count q (rs ++ record { fdp = p; closeonfork = b } ∷ []) ≡ one (cell_eq p q) + count q rs
count-end q p b [] = refl
count-end q p b (r ∷ rs) = omega (arith, count-end q p b rs)

pub none-is_reserved : (p : Cell) (rs : List Reserve) → count p rs ≡ 0 → is_reserved p rs ≡ false
unfolding is_reserved
none-is_reserved p [] h = refl
none-is_reserved p (r ∷ rs) h = elim (Bool-cases (cell_eq r.fdp p)) [
  | inl e ↦ absurd (first (cell_eq r.fdp p) (count p rs) e h)
  | inr e ↦ rw e (none-is_reserved p rs (second (cell_eq r.fdp p) (count p rs) h))
]
  where
    first : (b : Bool) (n : ℕ) → b ≡ true → one b + n ≡ 0 → ⊥
    first true n e h = omega arith
    first false n e h = ground arith

    second : (b : Bool) (n : ℕ) → one b + n ≡ 0 → n ≡ 0
    second true n h = omega arith
    second false n h = omega arith

-- How often a pointer is among those to `n` entries from entry `i` on.
abbrev pub among : ℕ → ℕ → Cell → ℕ
among zero i q = 0
among (suc n) i q = one (cell_eq (deferred i) q) + among n (suc i) q

one-equal : (i j : ℕ) → i ≡ j → one (i == j) ≡ 1
one-equal i j h = rw ((==_iff i j).1 h) refl

pub one-other : (i j : ℕ) → i < j → one (i == j) ≡ 0
one-other i j h = ap one (other i j h)
  where
    other : (i j : ℕ) → i < j → (i == j) ≡ false
    other i j h = ground arith

one-before : (i j : ℕ) → j < i → one (i == j) ≡ 0
one-before i j h = ap one (other i j h)
  where
    other : (i j : ℕ) → j < i → (i == j) ≡ false
    other i j h = ground arith

among-before : (n i j : ℕ) → j < i → among n i (deferred j) ≡ 0
among-before zero i j h = refl
among-before (suc n) i j h = omega (arith, one-before i j h, among-before n (suc i) j (omega arith))

pub among-within : (n i j : ℕ) → i ≤ j → j < i + n → among n i (deferred j) ≡ 1
among-within zero i j h k = absurd (omega arith)
among-within (suc n) i j h k = elim (Bool-cases (i == j)) [
  | inl e ↦ omega (
    arith,
    one-equal i j ((==_iff i j).0 e),
    among-before n (suc i) j (same_before ((==_iff i j).0 e)),
  )
  | inr e ↦
      omega (arith, one-other i j (behind e), among-within n (suc i) j (behind e) (omega arith))
]
  where
    same_before : i ≡ j → j < suc i
    same_before e = omega arith

    behind : (i == j) ≡ false → i < j
    behind e = ground arith
