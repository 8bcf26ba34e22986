-- ===== src/Dict/Slots.antt =====
-- Positions: `n % size`, writes to a slot, and how far a slot is from a position.
use desh.Common.{
  ℕ, ◌+◌, ◌-◌, ◌%◌, ◌<◌, ◌≡◌, ◌≢◌, inl, inr, sym, ap, ◌∙◌, leb→le, List, if◌then◌else◌, length,
  get_or, set, length-set, get_or-set_self, get_or-set_ne, arith, ◌==◌, leb, Bool-cases, ==_iff,
  Str,
}
use native.Mathlib.Nat.{mod-add-mod, mod-eq_of_lt, add-mod_right, mod-lt}
use desh.Dict.Hash.{strhash}
use desh.Dict.Look.{Uniq, filled}
use desh.Dict.{Slot, empty, used, slot}

pos_of_lt : {i s : ℕ} → i < s → 0 < s
pos_of_lt h = omega arith

-- Every index lies less than one round trip from every position.
pub steps_to : (n i s : ℕ) → i < s → (m : ℕ) × (m < s) × ((n + m) % s ≡ i)
steps_to n i s h = elim (Bool-cases (leb (n % s) i)) [
  | inl e ↦ (
    i - n % s,
    omega arith,
    sym (mod-add-mod n s (i - n % s))
        ∙ (ap (λ x. x % s) (omega (arith, leb→le (n % s) i e)) ∙ mod-eq_of_lt h),
  )
  | inr e ↦ (
    i + s - n % s,
    ground arith,
    sym (mod-add-mod n s (i + s - n % s))
        ∙ (ap (λ x. x % s) (omega (arith, mod-lt n (pos_of_lt h)))
            ∙ (add-mod_right i s ∙ mod-eq_of_lt h)),
  )
]

-- Going on from a position under the mask.
pub mod_step : (h i m a s : ℕ) → 0 < s → (h + a) % s ≡ i → (h + (a + m)) % s ≡ (i + m) % s
mod_step h i m a s p e =
    ap (λ x. x % s) (omega arith) ∙ (sym (mod-add-mod (h + a) s m) ∙ ap (λ x. (x + m) % s) e)

module _ {ℓ} {V : Type ℓ} where
  pub slot_eq : (t : List (Slot V)) (n m : ℕ) → n ≡ m → slot t n ≡ slot t m
  slot_eq t n m e = ap (slot t) e

  -- What stands at a position after a write.
  pub slot-set :
      (t : List (Slot V)) (i n : ℕ) (x : Slot V)
      → i < length t
      → slot (set t i x) n ≡ (if n % length t == i then x else slot t n)
  slot-set t i n x h = rw length-set (elim (Bool-cases (n % length t == i)) [
    | inl e ↦
        let same = (==_iff (n % length t) i).0 e in rw (e, same) (get_or-set_self t i x empty h)
    | inr e ↦ rw e (get_or-set_ne t i (n % length t) x empty (ground arith))
  ])

  -- No NULL in the `m` slots from position `h` on.
  abbrev pub IsPath : List (Slot V) → ℕ → ℕ → Type ℓ
  IsPath t h m = (j : ℕ) → j < m → slot t (h + j) ≢ empty

  -- Every entry can be reached from the hash of its name.
  abbrev pub IsReached : List (Slot V) → Type ℓ
  IsReached t =
      (i : ℕ) (k : Str) (v : V)
      → i < length t
      → get_or t i empty ≡ used k v
      → (m : ℕ) × (m < length t) × ((strhash k + m) % length t ≡ i) × IsPath t (strhash k) m

  -- A table that the operations keep: it is not full, names are unique, entries can be reached.
  pub record IsTable (t : List (Slot V)) : Type ℓ where
    pub roomy : filled t < length t
    pub uniq : Uniq t
    pub reached : IsReached t
