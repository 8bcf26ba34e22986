-- ===== src/Dict/Insert.antt =====
-- Writing an entry: the table stays well-formed, and the map changes at the name alone.
use desh.Common.{
  ℕ, ◌+◌, ◌-◌, ◌*◌, ◌%◌, ◌^◌, ◌≤◌, ◌<◌, ◌≡◌, ◌≢◌, inl, inr, sym, ap, subst, ◌∙◌, Bool, true, false,
  Option, none, some, List, if◌then◌else◌, ◌==◌, ==_iff, length, get_or, set, length-set,
  get_or-set_self, get_or-set_ne, Str, streq, Bool-cases, arith,
}
use desh.Dict.Hash.{strhash}
use desh.Dict.Look.{look, filled, IsVacant, look-set_used, Uniq-set_used}
use desh.Dict.Vacate.{filled-set}
use desh.Dict.Slots.{slot-set, IsPath, IsReached, IsTable}
use desh.Dict.Placing.{IsPlaced, find_place-IsPlaced}
use desh.Dict.{Slot, empty, dead, used, Dict, remain_of, put_here}

-- What the operations keep. `n & mask` is `n % size` because of `power`.
pub record IsDict {ℓ} {V : Type ℓ} (d : Dict V) : Type ℓ where
  pub well : IsTable d.table
  pub budget : d.remain + filled d.table ≡ remain_of (length d.table)
  pub spare : 1 ≤ d.remain
  pub power : (b : ℕ) × (length d.table ≡ 2 * 2 ^ b)

-- A write of `v` under the name `k` by which `d` becomes `d'`.
pub record Writes {ℓ} {V : Type ℓ} (k : Str) (v : Option V) (d d' : Dict V) : Type ℓ where
  pub valid : IsDict d'
  pub reads : (j : Str) → look d'.table j ≡ (if streq j k then v else look d.table j)

-- The budget leaves a third of the slots NULL.
pub roomy_of : (r f l : ℕ) → 0 < l → r + f ≡ remain_of l → f < l
roomy_of r f l p e = omega arith

module _ {ℓ} {V : Type ℓ} where
  IsPath-set :
      (t : List (Slot V)) (i : ℕ) (x : Slot V) (h m : ℕ)
      → i < length t
      → x ≢ empty
      → IsPath t h m
      → IsPath (set t i x) h m
  IsPath-set t i x h m lt solid path j near hollow = elim (Bool-cases ((h + j) % length t == i)) [
    | inl e ↦ solid (rw e at (sym (slot-set t i (h + j) x lt) ∙ hollow))
    | inr e ↦ path j near (rw e at (sym (slot-set t i (h + j) x lt) ∙ hollow))
  ]

  -- One slot changes to something that is not NULL.
  pub IsReached-set :
      (t : List (Slot V)) (i : ℕ) (x : Slot V)
      → i < length t
      → x ≢ empty
      → IsReached t
      → ((k : Str) (v : V)
          → x ≡ used k v
          → (m : ℕ) × (m < length t) × ((strhash k + m) % length t ≡ i) × IsPath t (strhash k) m)
      → IsReached (set t i x)
  IsReached-set t i x lt solid old new i' k v lt' here = elim (Bool-cases (i' == i)) [
    | inl e ↦
        let same : i' ≡ i = (==_iff i' i).0 e in
        let entry : x ≡ used k v =
          sym (get_or-set_self t i x empty lt)
          ∙ (ap (λ n. get_or (set t i x) n empty) (sym same) ∙ here) in
        let (m, near, there, path) = new k v entry in
        (m, rw length-set near, rw (length-set, same) there, IsPath-set t i x _ m lt solid path)
    | inr e ↦
        let entry : get_or t i' empty ≡ used k v =
          sym (get_or-set_ne t i i' x empty (ground arith)) ∙ here in
        let (m, near, there, path) = old i' k v (rw length-set at lt') entry in
        (m, rw length-set near, rw length-set there, IsPath-set t i x _ m lt solid path)
  ]

  Uniq-place :
      (t : List (Slot V)) (i : ℕ) (fresh : Bool)
      → get_or t i empty ≡ (if fresh then empty else dead)
      → IsVacant (get_or t i empty)
  Uniq-place t i true e = rw e tt
  Uniq-place t i false e = rw e tt

  module _ (d : Dict V) (k : Str) (v : V) (valid : IsDict d) (new : look d.table k ≡ none) where
    budget_set :
        (i : ℕ) (fresh : Bool)
        → 2 ≤ d.remain
        → i < length d.table
        → get_or d.table i empty ≡ (if fresh then empty else dead)
        → (if fresh then d.remain - 1 else d.remain) + filled (set d.table i (used k v))
          ≡ remain_of (length d.table)
    budget_set i true spare lt e =
        let size = filled-set d.table i (used k v) lt in
        let size' : filled (set d.table i (used k v)) + 0 ≡ filled d.table + 1 = rw e at size in
        omega (arith, valid.budget)
    budget_set i false spare lt e =
        let size = filled-set d.table i (used k v) lt in
        let size' : filled (set d.table i (used k v)) + 1 ≡ filled d.table + 1 = rw e at size in
        omega (arith, valid.budget)

    -- The place that the loop finds takes the entry, if there is more than one slot to spare.
    placed-Writes :
        (i : ℕ) (fresh : Bool)
        → 2 ≤ d.remain
        → IsPlaced d.table (strhash k) i fresh
        → Writes k (some v) d (record {
          table = set d.table i (used k v);
          remain = if fresh then d.remain - 1 else d.remain;
        })
    placed-Writes i fresh spare p = record {
      valid = record {
        well = record {
          roomy =
              rw length-set
                (roomy_of _ _ _ (omega arith) (budget_set i fresh spare p.inside p.vacant));
          uniq =
              Uniq-set_used k v d.table i (Uniq-place d.table i fresh p.vacant) new valid.well.uniq;
          reached =
              IsReached-set d.table i (used k v) p.inside (λ e. cc) valid.well.reached
                (λ k' v' e.
                  subst
                    (λ n.
                      (m : ℕ) × (m < length d.table)
                      × ((strhash n + m) % length d.table ≡ i)
                      × IsPath d.table (strhash n) m)
                    (ground (arith, e)) (p.steps, p.near, p.there, p.path));
        };
        budget = rw length-set (budget_set i fresh spare p.inside p.vacant);
        spare = ground arith;
        power = rw length-set valid.power;
      };
      reads = λ j. look-set_used k v d.table i j p.inside (Uniq-place d.table i fresh p.vacant) new;
    }

    -- `put` with room to spare.
    pub put_here-Writes :
        2 ≤ d.remain
        → (d' : Dict V) × (put_here d k v ≡ some d')
          × Writes k (some v) d d'
          × (length d'.table ≡ length d.table)
          × (d.remain ≤ d'.remain + 1)
    unfolding put_here
    put_here-Writes spare =
        let (i, fresh, run, p) = find_place-IsPlaced d.table (strhash k) valid.well.roomy in
        (_, rw run, placed-Writes i fresh spare p, length-set d.table i (used k v), ground arith)
