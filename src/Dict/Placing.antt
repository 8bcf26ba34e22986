-- ===== src/Dict/Placing.antt =====
-- The loop at the end of `put`: it ends at a slot with no name, which its hash can reach.
use desh.Common.{
  ℕ, zero, suc, ◌+◌, ◌%◌, ◌≤◌, ◌<◌, ◌≡◌, ◌≢◌, inl, inr, refl, ap, ◌∙◌, Bool, true, false, List,
  if◌then◌else◌, ◌==◌, length, get_or, Str, Bool-cases, arith,
}
use native.Mathlib.Nat.{mod-lt}
use desh.Dict.Look.{filled}
use desh.Dict.Probe.{empty_ahead}
use desh.Dict.Slots.{slot_eq, IsPath}
use desh.Dict.{Slot, empty, dead, used, slot, place, place_at, find_place}

le_of_ne : {a m : ℕ} → a ≤ m → a ≢ m → suc a ≤ m
le_of_ne h n = omega arith

module _ {ℓ} {V : Type ℓ} where
  -- Where the loop of `put` stops: at a slot with no name, behind a path with no NULL.
  pub record IsPlaced (t : List (Slot V)) (n i : ℕ) (fresh : Bool) : Type ℓ where
    pub inside : i < length t
    pub vacant : get_or t i empty ≡ (if fresh then empty else dead)
    pub steps : ℕ
    pub near : steps < length t
    pub there : (n + steps) % length t ≡ i
    pub path : IsPath t n steps

  -- The loop from the position that lies `a` slots on.
  place_loop :
      (f a n : ℕ) (t : List (Slot V))
      → 0 < length t
      → a + f ≡ length t
      → IsPath t n a
      → ((m : ℕ) × (a ≤ m) × (m < length t) × (slot t (n + m) ≡ empty))
      → (i : ℕ) × (fresh : Bool) × (find_place f t (n + a) ≡ place i fresh) × IsPlaced t n i fresh
  unfolding find_place place_at
  place_loop zero a n t pos e path (m, le, lt, hole) = absurd (omega arith)
  place_loop (suc f) a n t pos e path (m, le, lt, hole) =
      go (slot t (n + a)) refl
        (λ p' le'. place_loop f (suc a) n t pos (omega arith) p' (m, le', lt, hole))
    where
      stop :
          (fresh : Bool)
          → slot t (n + a) ≡ (if fresh then empty else dead)
          → IsPlaced t n ((n + a) % length t) fresh
      stop fresh here = record {
        inside = mod-lt (n + a) pos;
        vacant = here;
        steps = a;
        near = omega arith;
        there = refl;
        path = path;
      }

      onward : (k : Str) (v : V) → slot t (n + a) ≡ used k v → IsPath t n (suc a)
      onward k v here j lt' hollow = elim (Bool-cases (j == a)) [
        | inl same ↦
            let q = slot_eq t (n + a) (n + j) (ground arith) ∙ hollow in ground (arith, here, q)
        | inr other ↦ path j (ground arith) hollow
      ]

      beyond : (k : Str) (v : V) → slot t (n + a) ≡ used k v → a ≢ m
      beyond k v here same =
          let q = slot_eq t (n + a) (n + m) (omega arith) ∙ hole in ground (arith, here, q)

      go :
          (x : Slot V)
          → slot t (n + a) ≡ x
          → (IsPath t n (suc a)
              → suc a ≤ m
              → (i : ℕ) × (fresh : Bool) × (find_place f t (n + suc a) ≡ place i fresh)
                × IsPlaced t n i fresh)
          → (i : ℕ) × (fresh : Bool) × (place_at x ((n + a) % length t) (find_place f t (n + a + 1))
              ≡ place i fresh)
            × IsPlaced t n i fresh
      go empty here more = ((n + a) % length t, true, refl, stop true here)
      go dead here more = ((n + a) % length t, false, refl, stop false here)
      go (used k v) here more =
          let (i, fresh, run, placed) = more (onward k v here) (le_of_ne le (beyond k v here)) in
          (i, fresh, ap (find_place f t) (omega arith) ∙ run, placed)

  pub find_place-IsPlaced :
      (t : List (Slot V)) (n : ℕ)
      → filled t < length t
      → (i : ℕ) × (fresh : Bool) × (find_place (length t) t n ≡ place i fresh)
        × IsPlaced t n i fresh
  find_place-IsPlaced t n h =
      let (m, lt, hole) = empty_ahead t n h in
      let (i, fresh, run, placed) =
        place_loop (length t) 0 n t (omega arith) (omega arith) (λ j lt'. absurd (omega arith))
          (m, omega arith, lt, hole) in
      (i, fresh, ap (find_place (length t) t) (omega arith) ∙ run, placed)
