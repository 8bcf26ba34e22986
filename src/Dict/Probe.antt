-- ===== src/Dict/Probe.antt =====
-- The loop of `get` on a well-formed table: it ends, at the entry of the name if there is one.
use desh.Common.{
  ℕ, zero, suc, ◌+◌, ◌%◌, ◌≤◌, ◌<◌, ◌≡◌, ◌≢◌, inl, inr, refl, sym, ap, subst, ◌∙◌, true, none, some,
  List, length, get_or, Str, streq, streq→eq, streq_refl, Bool-cases, Option-cases, leb, leb→le,
  arith,
}
use native.Mathlib.Nat.{mod-lt}
use desh.Dict.Hash.{strhash}
use desh.Dict.Look.{look, filled, look-at, at-look}
use desh.Dict.Vacate.{empty_of_filled-lt}
use desh.Dict.Slots.{slot_eq, steps_to, IsTable}
use desh.Dict.{Slot, empty, dead, used, slot, Found, found, absent, probe, probe_at, get}

module _ {ℓ} {V : Type ℓ} where
  -- Where the loop for a name stops.
  abbrev Stops : Str → Slot V → Type 0
  Stops name empty = Unit
  Stops name dead = ⊥
  Stops name (used k v) = streq name k ≡ true

  -- The loop ends within `m + 1` rounds if something that stops it stands `m` slots ahead.
  probe_ends :
      (m f n : ℕ) (t : List (Slot V)) (name : Str)
      → m < f
      → Stops name (slot t (n + m))
      → probe f t name n ≢ Found.endless
  unfolding probe probe_at
  probe_ends m zero n t name lt h = absurd (omega arith)
  probe_ends zero (suc f) n t name lt h =
      here (slot t n) (subst (λ x. Stops name (slot t x)) (omega arith) h)
    where
      here :
          (x : Slot V)
          → Stops name x
          → probe_at name x (n % length t) (probe f t name (n + 1)) ≢ Found.endless
      here empty p = λ e. cc
      here dead p = absurd p
      here (used k v) p = rw p (λ e. cc)
  probe_ends (suc m) (suc f) n t name lt h = later (slot t n) (
      probe_ends m f (n + 1) t name (omega arith)
        (subst (λ x. Stops name (slot t x)) (omega arith) h))
    where
      later :
          (x : Slot V)
          → probe f t name (n + 1) ≢ Found.endless
          → probe_at name x (n % length t) (probe f t name (n + 1)) ≢ Found.endless
      later empty p = λ e. cc
      later dead p = p
      later (used k v) p = ground (arith, p)

  -- What `found` means.
  abbrev Hit : List (Slot V) → Str → ℕ → Type ℓ
  Hit t name i = (i < length t) × ((v : V) × (get_or t i empty ≡ used name v))

  probe-found :
      (f n : ℕ) (t : List (Slot V)) (name : Str) (i : ℕ)
      → 0 < length t
      → probe f t name n ≡ found i
      → Hit t name i
  unfolding probe probe_at
  probe-found zero n t name i pos h = cc
  probe-found (suc f) n t name i pos h = go (slot t n) refl (probe-found f (n + 1) t name i pos) h
    where
      go :
          (x : Slot V)
          → slot t n ≡ x
          → (probe f t name (n + 1) ≡ found i → Hit t name i)
          → probe_at name x (n % length t) (probe f t name (n + 1)) ≡ found i
          → Hit t name i
      go empty e rest h = cc
      go dead e rest h = rest h
      go (used k v) e rest h = elim (Bool-cases (streq name k)) [
        | inl same ↦
            let here : n % length t ≡ i = ground (arith, rw same at h) in
            let key : name ≡ k = streq→eq name k same in
            (rw (← here) (mod-lt n pos), (v, rw (← here, key) e))
        | inr other ↦ rest (rw other at h)
      ]

  -- What `absent` means: a NULL ahead, and the name nowhere before it.
  abbrev Misses : List (Slot V) → Str → ℕ → ℕ → Type ℓ
  Misses t name n m =
      (slot t (n + m) ≡ empty) × ((j : ℕ) (v : V) → j ≤ m → slot t (n + j) ≢ used name v)

  probe-absent :
      (f n : ℕ) (t : List (Slot V)) (name : Str)
      → probe f t name n ≡ absent
      → (m : ℕ) × Misses t name n m
  unfolding probe probe_at
  probe-absent zero n t name h = cc
  probe-absent (suc f) n t name h = go (slot t n) refl (probe-absent f (n + 1) t name) h
    where
      step :
          ((v : V) → slot t n ≢ used name v)
          → (m : ℕ) × Misses t name (n + 1) m
          → (m : ℕ) × Misses t name n m
      step other (m, (e, none_before)) =
          (suc m, (subst (λ x. slot t x ≡ empty) (omega arith) e, before))
        where
          before : (j : ℕ) (v : V) → j ≤ suc m → slot t (n + j) ≢ used name v
          before zero v le p = other v (slot_eq t n (n + 0) (omega arith) ∙ p)
          before (suc j) v le p =
              none_before j v (omega arith) (slot_eq t (n + 1 + j) (n + suc j) (omega arith) ∙ p)

      go :
          (x : Slot V)
          → slot t n ≡ x
          → (probe f t name (n + 1) ≡ absent → (m : ℕ) × Misses t name (n + 1) m)
          → probe_at name x (n % length t) (probe f t name (n + 1)) ≡ absent
          → (m : ℕ) × Misses t name n m
      go empty e rest h = (0, (subst (λ x. slot t x ≡ empty) (omega arith) e, first))
        where
          first : (j : ℕ) (v : V) → j ≤ 0 → slot t (n + j) ≢ used name v
          first j v le p = let q = slot_eq t n (n + j) (omega arith) ∙ p in ground (arith, e, q)
      go dead e rest h = step (λ v p. ground (arith, e, p)) (rest h)
      go (used k v) e rest h = elim (Bool-cases (streq name k)) [
        | inl same ↦ cc (rw same at h)
        | inr other ↦ step (λ w p. ground (arith, e, p, streq_refl name)) (rest (rw other at h))
      ]

  -- The slot that ends every round trip.
  pub empty_ahead :
      (t : List (Slot V)) (n : ℕ)
      → filled t < length t
      → (m : ℕ) × (m < length t) × (slot t (n + m) ≡ empty)
  empty_ahead t n h =
      let (i, lt, e) = empty_of_filled-lt t h in
      let (m, lt', there) = steps_to n i (length t) lt in
      (m, lt', ap (λ j. get_or t j empty) there ∙ e)

  pub get-ne-endless :
      (t : List (Slot V)) (name : Str) → filled t < length t → get t name ≢ Found.endless
  unfolding get
  get-ne-endless t name h =
      let (m, lt, e) = empty_ahead t (strhash name) h in
      probe_ends m (length t) (strhash name) t name lt (subst (Stops name) (sym e) tt)

  pub get-found :
      (t : List (Slot V)) (name : Str) (i : ℕ)
      → IsTable t
      → get t name ≡ found i
      → (i < length t) × ((v : V) × (get_or t i empty ≡ used name v) × (look t name ≡ some v))
  unfolding get
  get-found t name i w h =
      let (lt, (v, e)) =
        probe-found (length t) (strhash name) t name i (omega (arith, w.roomy)) h in
      (lt, (v, e, at-look t i name v w.uniq e))

  pub get-absent :
      (t : List (Slot V)) (name : Str) → IsTable t → get t name ≡ absent → look t name ≡ none
  unfolding get
  get-absent t name w h = elim (Option-cases (look t name)) [
    | inl e ↦ e
    | inr (v, e) ↦
        let (i, lt, there) = look-at t name v e in
        let (steps, _, at, path) = w.reached i name v lt there in
        let (m, (hole, unseen)) = probe-absent (length t) (strhash name) t name h in
        elim (Bool-cases (leb steps m)) [
          | inl le ↦
              absurd (unseen steps v (leb→le steps m le) (ap (λ j. get_or t j empty) at ∙ there))
          | inr gt ↦ absurd (path m (ground arith) hole)
        ]
  ]

  pub get-eq-absent :
      (t : List (Slot V)) (name : Str) → IsTable t → look t name ≡ none → get t name ≡ absent
  get-eq-absent t name w h = go (get t name) refl
    where
      go : (r : Found) → get t name ≡ r → get t name ≡ absent
      go absent e = e
      go Found.endless e = absurd (get-ne-endless t name w.roomy e)
      go (found i) e =
          let (lt, (v, here, there)) = get-found t name i w e in ground (arith, h, there)
