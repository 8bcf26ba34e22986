-- ===== src/Dict/Vacate.antt =====
-- Writes that leave a slot without a name, and how many slots are NULL, DEAD or in use.
use desh.Common.{
  ℕ, zero, suc, ◌+◌, ◌≤◌, ◌<◌, ◌≡◌, refl, none, List, [], ◌∷◌, if◌then◌else◌, length, get_or, set,
  replicate, Str, streq, streq_iff, arith,
}
use desh.Dict.{Slot, empty, dead, used}
use desh.Dict.Look.{look, Uniq, filled, count, IsVacant, at-look}

module _ {ℓ} {V : Type ℓ} where
  -- One write where nothing is in use.
  look-cons_vacant :
      (x : Slot V) (t : List (Slot V)) (j : Str) → IsVacant x → look (x ∷ t) j ≡ look t j
  unfolding look
  look-cons_vacant empty t j h = refl
  look-cons_vacant dead t j h = refl
  look-cons_vacant (used k v) t j h = absurd h

  pub look-set_vacant :
      (t : List (Slot V)) (i : ℕ) (x : Slot V) (j : Str)
      → IsVacant (get_or t i empty)
      → IsVacant x
      → look (set t i x) j ≡ look t j
  unfolding look
  look-set_vacant [] i x j p q = refl
  look-set_vacant (empty ∷ t) zero x j p q = look-cons_vacant x t j q
  look-set_vacant (dead ∷ t) zero x j p q = look-cons_vacant x t j q
  look-set_vacant (used a b ∷ t) zero x j p q = absurd p
  look-set_vacant (empty ∷ t) (suc i) x j p q = look-set_vacant t i x j p q
  look-set_vacant (dead ∷ t) (suc i) x j p q = look-set_vacant t i x j p q
  look-set_vacant (used a b ∷ t) (suc i) x j p q = rw (look-set_vacant t i x j p q)

  -- A name is taken out.
  pub look-vacate :
      (t : List (Slot V)) (i : ℕ) (x : Slot V) (k : Str) (v : V) (j : Str)
      → Uniq t
      → get_or t i empty ≡ used k v
      → IsVacant x
      → look (set t i x) j ≡ (if streq j k then none else look t j)
  unfolding look
  look-vacate [] i x k v j u h q = cc
  look-vacate (empty ∷ t) zero x k v j u h q = cc
  look-vacate (dead ∷ t) zero x k v j u h q = cc
  look-vacate (used a b ∷ t) zero x k v j u h q =
      rw (look-cons_vacant x t j q) (ground (arith, u.0, streq_iff j a, streq_iff j k))
  look-vacate (empty ∷ t) (suc i) x k v j u h q = look-vacate t i x k v j u h q
  look-vacate (dead ∷ t) (suc i) x k v j u h q = look-vacate t i x k v j u h q
  look-vacate (used a b ∷ t) (suc i) x k v j u h q =
      ground (
        arith,
        look-vacate t i x k v j u.1 h q,
        at-look t i k v u.1 h,
        streq_iff j a,
        streq_iff j k,
      )

  look-none-vacate :
      (t : List (Slot V)) (i : ℕ) (x : Slot V) (j : Str)
      → IsVacant x
      → look t j ≡ none
      → look (set t i x) j ≡ none
  unfolding look
  look-none-vacate [] i x j q h = refl
  look-none-vacate (empty ∷ t) zero x j q h = rw (look-cons_vacant x t j q) h
  look-none-vacate (dead ∷ t) zero x j q h = rw (look-cons_vacant x t j q) h
  look-none-vacate (used a b ∷ t) zero x j q h = rw (look-cons_vacant x t j q) (ground arith)
  look-none-vacate (empty ∷ t) (suc i) x j q h = look-none-vacate t i x j q h
  look-none-vacate (dead ∷ t) (suc i) x j q h = look-none-vacate t i x j q h
  look-none-vacate (used a b ∷ t) (suc i) x j q h = ground (arith, look-none-vacate t i x j q)

  Uniq-cons_vacant : (x : Slot V) (t : List (Slot V)) → IsVacant x → Uniq t → Uniq (x ∷ t)
  Uniq-cons_vacant empty t q u = u
  Uniq-cons_vacant dead t q u = u
  Uniq-cons_vacant (used k v) t q u = absurd q

  pub Uniq-vacate :
      (t : List (Slot V)) (i : ℕ) (x : Slot V) → IsVacant x → Uniq t → Uniq (set t i x)
  Uniq-vacate [] i x q u = tt
  Uniq-vacate (empty ∷ t) zero x q u = Uniq-cons_vacant x t q u
  Uniq-vacate (dead ∷ t) zero x q u = Uniq-cons_vacant x t q u
  Uniq-vacate (used a b ∷ t) zero x q u = Uniq-cons_vacant x t q u.1
  Uniq-vacate (empty ∷ t) (suc i) x q u = Uniq-vacate t i x q u
  Uniq-vacate (dead ∷ t) (suc i) x q u = Uniq-vacate t i x q u
  Uniq-vacate (used a b ∷ t) (suc i) x q u =
      (look-none-vacate t i x a q u.0, Uniq-vacate t i x q u.1)

  abbrev pub is_filled : Slot V → ℕ
  is_filled empty = 0
  is_filled dead = 1
  is_filled (used k v) = 1

  abbrev pub is_used : Slot V → ℕ
  is_used empty = 0
  is_used dead = 0
  is_used (used k v) = 1

  pub filled-cons : (x : Slot V) (t : List (Slot V)) → filled (x ∷ t) ≡ is_filled x + filled t
  unfolding filled
  filled-cons empty t = omega arith
  filled-cons dead t = omega arith
  filled-cons (used k v) t = omega arith

  pub count-cons : (x : Slot V) (t : List (Slot V)) → count (x ∷ t) ≡ is_used x + count t
  unfolding count
  count-cons empty t = omega arith
  count-cons dead t = omega arith
  count-cons (used k v) t = omega arith

  pub filled-set :
      (t : List (Slot V)) (i : ℕ) (x : Slot V)
      → i < length t
      → filled (set t i x) + is_filled (get_or t i empty) ≡ filled t + is_filled x
  filled-set [] i x h = absurd (omega arith)
  filled-set (y ∷ t) zero x h = omega (arith, filled-cons x t, filled-cons y t)
  filled-set (y ∷ t) (suc i) x h =
      omega (arith, filled-cons y (set t i x), filled-cons y t, filled-set t i x (omega arith))

  pub count-set :
      (t : List (Slot V)) (i : ℕ) (x : Slot V)
      → i < length t
      → count (set t i x) + is_used (get_or t i empty) ≡ count t + is_used x
  count-set [] i x h = absurd (omega arith)
  count-set (y ∷ t) zero x h = omega (arith, count-cons x t, count-cons y t)
  count-set (y ∷ t) (suc i) x h =
      omega (arith, count-cons y (set t i x), count-cons y t, count-set t i x (omega arith))

  pub count-le-filled : (t : List (Slot V)) → count t ≤ filled t
  unfolding count filled
  count-le-filled [] = omega arith
  count-le-filled (empty ∷ t) = count-le-filled t
  count-le-filled (dead ∷ t) = omega (arith, count-le-filled t)
  count-le-filled (used k v ∷ t) = omega (arith, count-le-filled t)

  -- A table that is not filled has a NULL.
  pub empty_of_filled-lt :
      (t : List (Slot V))
      → filled t < length t
      → (i : ℕ) × (i < length t) × (get_or t i empty ≡ empty)
  unfolding filled
  empty_of_filled-lt [] h = absurd (omega arith)
  empty_of_filled-lt (empty ∷ t) h = (0, omega arith, refl)
  empty_of_filled-lt (dead ∷ t) h =
      let (i, p, q) = empty_of_filled-lt t (omega arith) in (suc i, omega arith, q)
  empty_of_filled-lt (used k v ∷ t) h =
      let (i, p, q) = empty_of_filled-lt t (omega arith) in (suc i, omega arith, q)

  pub look-replicate : (n : ℕ) (j : Str) → look {V = V} (replicate n empty) j ≡ none
  unfolding look
  look-replicate zero j = refl
  look-replicate (suc n) j = look-replicate n j

pub Uniq-replicate {ℓ} : (V : Type ℓ) (n : ℕ) → Uniq {V = V} (replicate n empty)
Uniq-replicate V zero = tt
Uniq-replicate V (suc n) = Uniq-replicate V n

pub filled-replicate {ℓ} : (V : Type ℓ) (n : ℕ) → filled {V = V} (replicate n empty) ≡ 0
unfolding filled
filled-replicate V zero = refl
filled-replicate V (suc n) = filled-replicate V n
