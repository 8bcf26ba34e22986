-- ===== src/Dict/Look.antt =====
-- The table of a dictionary as a map: the entries in it, with no regard to where they stand.
use desh.Common.{
  ℕ, zero, suc, ◌<◌, ◌≡◌, inl, inr, refl, false, Option, none, some, List, [], ◌∷◌, if◌then◌else◌,
  length, get_or, set, Str, streq, streq_refl, streq→eq, streq_comm, streq_iff, ◌∙◌, Bool-cases,
  arith,
}
use desh.Dict.{Slot, empty, dead, used}

module _ {ℓ} {V : Type ℓ} where
  -- The value under a name.
  unfoldable pub look : List (Slot V) → Str → Option V
  look [] j = none
  look (empty ∷ t) j = look t j
  look (dead ∷ t) j = look t j
  look (used k v ∷ t) j = if streq j k then some v else look t j

  -- No name stands twice.
  abbrev pub Uniq : List (Slot V) → Type ℓ
  Uniq [] = Unit
  Uniq (empty ∷ t) = Uniq t
  Uniq (dead ∷ t) = Uniq t
  Uniq (used k v ∷ t) = (look t k ≡ none) × Uniq t

  -- The slots that are not NULL.
  unfoldable pub filled : List (Slot V) → ℕ
  filled [] = 0
  filled (empty ∷ t) = filled t
  filled (dead ∷ t) = suc (filled t)
  filled (used k v ∷ t) = suc (filled t)

  -- The entries.
  unfoldable pub count : List (Slot V) → ℕ
  count [] = 0
  count (empty ∷ t) = count t
  count (dead ∷ t) = count t
  count (used k v ∷ t) = suc (count t)

  abbrev pub IsVacant : Slot V → Type 0
  IsVacant empty = Unit
  IsVacant dead = Unit
  IsVacant (used k v) = ⊥

  pub look-at :
      (t : List (Slot V)) (k : Str) (v : V)
      → look t k ≡ some v
      → (i : ℕ) × (i < length t) × (get_or t i empty ≡ used k v)
  unfolding look
  look-at [] k v h = cc
  look-at (empty ∷ t) k v h = let (i, p, q) = look-at t k v h in (suc i, omega arith, q)
  look-at (dead ∷ t) k v h = let (i, p, q) = look-at t k v h in (suc i, omega arith, q)
  look-at (used a b ∷ t) k v h = elim (Bool-cases (streq k a)) [
    | inl e ↦ let same = streq→eq k a e in (0, omega arith, ground (arith, same, e))
    | inr e ↦ let (i, p, q) = look-at t k v (rw e at h) in (suc i, omega arith, q)
  ]

  -- In a table with unique names, what stands there is what is found.
  pub at-look :
      (t : List (Slot V)) (i : ℕ) (k : Str) (v : V)
      → Uniq t
      → get_or t i empty ≡ used k v
      → look t k ≡ some v
  unfolding look
  at-look [] i k v u h = cc
  at-look (empty ∷ t) zero k v u h = cc
  at-look (empty ∷ t) (suc i) k v u h = at-look t i k v u h
  at-look (dead ∷ t) zero k v u h = cc
  at-look (dead ∷ t) (suc i) k v u h = at-look t i k v u h
  at-look (used a b ∷ t) zero k v u h = ground (arith, streq_refl k)
  at-look (used a b ∷ t) (suc i) k v u h = ground (arith, at-look t i k v u.1 h, streq_iff k a)

  pub look-none_inv :
      (k a : Str) (b : V) (t : List (Slot V))
      → look (used a b ∷ t) k ≡ none
      → (streq k a ≡ false) × (look t k ≡ none)
  unfolding look
  look-none_inv k a b t h = ground arith

  module _ (k : Str) (v : V) where
    pub look-set_used :
        (t : List (Slot V)) (i : ℕ) (j : Str)
        → i < length t
        → IsVacant (get_or t i empty)
        → look t k ≡ none
        → look (set t i (used k v)) j ≡ (if streq j k then some v else look t j)
    unfolding look
    look-set_used [] i j p vac h = absurd (omega arith)
    look-set_used (empty ∷ t) zero j p vac h = refl
    look-set_used (dead ∷ t) zero j p vac h = refl
    look-set_used (used a b ∷ t) zero j p vac h = absurd vac
    look-set_used (empty ∷ t) (suc i) j p vac h = look-set_used t i j (omega arith) vac h
    look-set_used (dead ∷ t) (suc i) j p vac h = look-set_used t i j (omega arith) vac h
    look-set_used (used a b ∷ t) (suc i) j p vac h = ground (
      arith,
      look-set_used t i j (omega arith) vac,
      streq_iff j a,
      streq_iff j k,
      streq_iff k a,
      streq_refl k,
    )

    pub look-none-set :
        (t : List (Slot V)) (i : ℕ) (j : Str)
        → streq j k ≡ false
        → look t j ≡ none
        → look (set t i (used k v)) j ≡ none
    unfolding look
    look-none-set [] i j n h = refl
    look-none-set (empty ∷ t) zero j n h = ground arith
    look-none-set (dead ∷ t) zero j n h = ground arith
    look-none-set (used a b ∷ t) zero j n h = ground arith
    look-none-set (empty ∷ t) (suc i) j n h = look-none-set t i j n h
    look-none-set (dead ∷ t) (suc i) j n h = look-none-set t i j n h
    look-none-set (used a b ∷ t) (suc i) j n h = ground (arith, look-none-set t i j n)

    pub Uniq-set_used :
        (t : List (Slot V)) (i : ℕ)
        → IsVacant (get_or t i empty)
        → look t k ≡ none
        → Uniq t
        → Uniq (set t i (used k v))
    unfolding look
    Uniq-set_used [] i vac h u = tt
    Uniq-set_used (empty ∷ t) zero vac h u = (h, u)
    Uniq-set_used (dead ∷ t) zero vac h u = (h, u)
    Uniq-set_used (used a b ∷ t) zero vac h u = absurd vac
    Uniq-set_used (empty ∷ t) (suc i) vac h u = Uniq-set_used t i vac h u
    Uniq-set_used (dead ∷ t) (suc i) vac h u = Uniq-set_used t i vac h u
    Uniq-set_used (used a b ∷ t) (suc i) vac h u =
        let (apart, below) = look-none_inv k a b t h in
        (look-none-set t i a (streq_comm a k ∙ apart) u.0, Uniq-set_used t i vac below u.1)

    -- A new value for a name that stands there.
    pub look-assign :
        (t : List (Slot V)) (i : ℕ) (w : V) (j : Str)
        → Uniq t
        → get_or t i empty ≡ used k w
        → look (set t i (used k v)) j ≡ (if streq j k then some v else look t j)
    unfolding look
    look-assign [] i w j u h = cc
    look-assign (empty ∷ t) zero w j u h = cc
    look-assign (dead ∷ t) zero w j u h = cc
    look-assign (used a b ∷ t) zero w j u h = ground arith
    look-assign (empty ∷ t) (suc i) w j u h = look-assign t i w j u h
    look-assign (dead ∷ t) (suc i) w j u h = look-assign t i w j u h
    look-assign (used a b ∷ t) (suc i) w j u h =
        ground
          (arith, look-assign t i w j u.1 h, at-look t i k w u.1 h, streq_iff j a, streq_iff j k)

    pub Uniq-assign :
        (t : List (Slot V)) (i : ℕ) (w : V)
        → get_or t i empty ≡ used k w
        → Uniq t
        → Uniq (set t i (used k v))
    unfolding look
    Uniq-assign [] i w h u = tt
    Uniq-assign (empty ∷ t) zero w h u = cc
    Uniq-assign (dead ∷ t) zero w h u = cc
    Uniq-assign (used a b ∷ t) zero w h u = ground (arith, u.0, u.1)
    Uniq-assign (empty ∷ t) (suc i) w h u = Uniq-assign t i w h u
    Uniq-assign (dead ∷ t) (suc i) w h u = Uniq-assign t i w h u
    Uniq-assign (used a b ∷ t) (suc i) w h u =
        (look-none-set t i a (apart a t u.0 (at-look t i k w u.1 h)) u.0, Uniq-assign t i w h u.1)
      where
        apart :
            (a : Str) (t : List (Slot V)) → look t a ≡ none → look t k ≡ some w → streq a k ≡ false
        apart a t p q = ground (arith, streq_iff a k)
