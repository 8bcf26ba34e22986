-- ===== src/Dict/Grow.antt =====
-- A dictionary that grows keeps its entries: the new table has room for all of them, so no `put`
-- on it grows in turn.
use desh.Common.{
  ℕ, suc, ◌+◌, ◌*◌, ◌^◌, ◌≤◌, ◌≡◌, refl, sym, ap, ◌∙◌, false, Option, none, some, List, [], ◌∷◌,
  leb, length, length-replicate, get_or-replicate, replicate, Str, streq_iff, streq_refl, arith,
}
use native.Mathlib.Nat.{pow-suc}
use desh.Dict.Look.{look, Uniq, count}
use desh.Dict.Vacate.{count-le-filled, look-replicate, Uniq-replicate, filled-replicate}
use desh.Dict.Probe.{get-eq-absent}
use desh.Dict.Insert.{IsDict, Writes, put_here-Writes}
use desh.Dict.{Slot, empty, dead, used, Dict, mkdict0, put_dropped, put_all, grow}

double : (n : ℕ) → ((b : ℕ) × (n ≡ 2 * 2 ^ b)) → (b : ℕ) × (n * 2 ≡ 2 * 2 ^ b)
double n (b, e) = (suc b, simp pow-suc (omega arith))

module _ {ℓ} {V : Type ℓ} where
  pub or_else : Option V → Option V → Option V
  or_else none y = y
  or_else (some v) y = some v

  or_else-none : (x : Option V) → or_else x none ≡ x
  unfolding or_else
  or_else-none none = refl
  or_else-none (some v) = refl

  -- `d'` holds the entries of `t` and those of `d`.
  record Copies (t : List (Slot V)) (d d' : Dict V) : Type ℓ where
    valid : IsDict d'
    reads : (j : Str) → look d'.table j ≡ or_else (look t j) (look d.table j)
    width : length d'.table ≡ length d.table
    left : d.remain ≤ d'.remain + count t

  put_dropped-Writes :
      (d : Dict V) (k : Str) (v : V)
      → IsDict d
      → look d.table k ≡ none
      → 2 ≤ d.remain
      → (d' : Dict V) × (put_dropped d k v ≡ some d')
        × Writes k (some v) d d'
        × (length d'.table ≡ length d.table)
        × (d.remain ≤ d'.remain + 1)
  unfolding put_dropped
  put_dropped-Writes d k v valid new spare =
      let (d', run, w, width, left) = put_here-Writes d k v valid new spare in
      let roomy : leb d.remain 1 ≡ false = ground arith in
      (d', rw (get-eq-absent d.table k valid.well new, roomy) run, w, width, left)

  put_all-Copies :
      (t : List (Slot V)) (d : Dict V)
      → Uniq t
      → IsDict d
      → ((j : Str) (v : V) → look t j ≡ some v → look d.table j ≡ none)
      → count t + 1 ≤ d.remain
      → (d' : Dict V) × (put_all t d ≡ some d') × Copies t d d'
  unfolding put_all count look or_else
  put_all-Copies [] d u valid apart room =
      (d, refl, record { valid = valid; reads = λ j. refl; width = refl; left = omega arith })
  put_all-Copies (empty ∷ t) d u valid apart room =
      let (d', run, c) = put_all-Copies t d u valid apart room in
      (d', run, record { valid = c.valid; reads = c.reads; width = c.width; left = c.left })
  put_all-Copies (dead ∷ t) d u valid apart room =
      let (d', run, c) = put_all-Copies t d u valid apart room in
      (d', run, record { valid = c.valid; reads = c.reads; width = c.width; left = c.left })
  put_all-Copies (used k v ∷ t) d u valid apart room =
      let (d₁, run₁, w, width, left) =
        put_dropped-Writes d k v valid (apart k v (rw streq_refl refl)) (omega arith) in
      let (d₂, run₂, c) =
        put_all-Copies t d₁ u.1 w.valid
          (λ j x h. ground (arith, w.reads j, u.0, streq_iff j k, apart j x, h)) (omega arith) in
      (
        d₂,
        rw run₁ run₂,
        record {
          valid = c.valid;
          reads = λ j. ground (arith, c.reads j, w.reads j, u.0, streq_iff j k);
          width = c.width ∙ width;
          left = omega (arith, c.left);
        },
      )

  pub mkdict0-IsDict : (n : ℕ) → 2 ≤ n → ((b : ℕ) × (n ≡ 2 * 2 ^ b)) → IsDict (mkdict0 {V = V} n)
  unfolding mkdict0
  mkdict0-IsDict n wide (b, e) =
      let width : length (replicate {A = Slot V} n empty) ≡ n = length-replicate n empty in
      record {
        well = record {
          roomy = omega (arith, filled-replicate V n, width);
          uniq = Uniq-replicate V n;
          reached = λ i k v lt h. absurd (ground (arith, sym (get_or-replicate n i empty) ∙ h));
        };
        budget = omega (arith, filled-replicate V n, width);
        spare = omega arith;
        power = (b, width ∙ e);
      }

  -- The new table has room for every entry of the old one, and one more.
  pub grow-Copies :
      (d : Dict V)
      → IsDict d
      → 2 ≤ length d.table
      → (d' : Dict V) × (grow d ≡ some d')
        × IsDict d'
        × (2 ≤ d'.remain)
        × ((j : Str) → look d'.table j ≡ look d.table j)
  unfolding grow mkdict0
  grow-Copies d valid wide =
      let size = length d.table in
      let few = count-le-filled d.table in
      let (d', run, c) =
        put_all-Copies d.table (mkdict0 (size * 2)) valid.well.uniq
          (mkdict0-IsDict (size * 2) (omega arith) (double size valid.power))
          (λ j v h. look-replicate (size * 2) j) (omega arith) in
      (
        d',
        run,
        c.valid,
        omega (arith, c.left),
        λ j.
            c.reads j
            ∙ (ap (or_else (look d.table j)) (look-replicate (size * 2) j) ∙ or_else-none _),
      )
