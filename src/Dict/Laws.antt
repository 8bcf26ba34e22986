-- ===== src/Dict/Laws.antt =====
-- A dictionary is a map: what its operations promise, in terms of `dictget` alone.
use desh.Common.{
  ℕ, zero, suc, ◌+◌, ◌%◌, ◌≤◌, ◌<◌, ◌≡◌, refl, sym, ap, ◌∙◌, Option, none, some, List, ◌++◌,
  if◌then◌else◌, if_push, leb, length, length-set, get_or, set, Str, streq, streq_iff, Bool-cases,
  inl, inr, arith,
}
use desh.Dict.Hash.{strhash2-append, streq2-append}
use desh.Dict.Look.{look, filled, look-assign, Uniq-assign}
use desh.Dict.Vacate.{look-replicate, filled-set}
use desh.Dict.Probe.{get-ne-endless, get-found, get-absent}
use desh.Dict.Insert.{IsDict, Writes, IsReached-set, put_here-Writes}
use desh.Dict.Grow.{mkdict0-IsDict, grow-Copies}
use desh.Dict.Remove.{rm-Writes}
use desh.Dict.{
  Slot, empty, dead, used, slot, Dict, mkdict, mkdict0, get, Found, found, absent, get_value,
  dictget, probe, probe_at, probe2, probe2_at, dictget2, put, put_at, dictput,
}

module _ {ℓ} {V : Type ℓ} where
  -- `dictget` ends, and gives the value that stands under the name.
  pub dictget-look :
      (d : Dict V) (name : Str) → IsDict d → dictget d name ≡ some (look d.table name)
  unfolding dictget
  dictget-look d name valid = go (get d.table name) refl
    where
      go : (r : Found) → get d.table name ≡ r → get_value d.table r ≡ some (look d.table name)
      go Found.endless e = absurd (get-ne-endless d.table name valid.well.roomy e)
      go absent e = ap some (sym (get-absent d.table name valid.well e))
      go (found i) e =
          let (lt, (v, here, there)) = get-found d.table name i valid.well e in
          rw here (ap some (sym there))

  put-Writes :
      (d : Dict V) (k : Str) (v : V)
      → IsDict d
      → 2 ≤ length d.table
      → get d.table k ≡ absent
      → (d' : Dict V) × (put d k v ≡ some d') × Writes k (some v) d d'
  unfolding put
  put-Writes d k v valid wide e =
      let new = get-absent d.table k valid.well e in
      elim (Bool-cases (leb d.remain 1)) [
        | inl full ↦
            let (d₁, run₁, valid₁, spare, same) = grow-Copies d valid wide in
            let (d₂, run₂, w, _, _) = put_here-Writes d₁ k v valid₁ (same k ∙ new) spare in
            (
              d₂,
              rw (e, full, run₁) run₂,
              record { valid = w.valid; reads = λ j. rw (← same j) (w.reads j) },
            )
        | inr room ↦
            let (d', run, w, _, _) = put_here-Writes d k v valid new (ground arith) in
            (d', rw (e, room) run, w)
      ]

  assign-Writes :
      (d : Dict V) (i : ℕ) (k : Str) (v w : V)
      → IsDict d
      → i < length d.table
      → get_or d.table i empty ≡ used k w
      → Writes k (some v) d (record d { table = set d.table i (used k v) })
  assign-Writes d i k v w valid lt here =
      let size = filled-set d.table i (used k v) lt in
      let size' : filled (set d.table i (used k v)) + 1 ≡ filled d.table + 1 = rw here at size in
      record {
        valid = record {
          well = record {
            roomy = rw length-set (omega (arith, valid.well.roomy));
            uniq = Uniq-assign k v d.table i w here valid.well.uniq;
            reached =
                IsReached-set d.table i (used k v) lt (λ e. cc) valid.well.reached
                  (λ k' v' e. valid.well.reached i k' w lt (here ∙ ground (arith, e)));
          };
          budget = rw length-set (omega (arith, valid.budget));
          spare = valid.spare;
          power = rw length-set valid.power;
        };
        reads = λ j. look-assign k v d.table i w j valid.well.uniq here;
      }

  wide_of : (d : Dict V) → IsDict d → 2 ≤ length d.table
  wide_of d valid = omega arith

  Writes-dictget :
      (d d' : Dict V) (name : Str) (v : Option V)
      → IsDict d
      → Writes name v d d'
      → (j : Str) → dictget d' j ≡ (if streq j name then some v else dictget d j)
  Writes-dictget d d' name v valid w j =
      rw (dictget-look d' j w.valid, dictget-look d j valid, w.reads j)
        (sym (if_push some (streq j name) v (look d.table j) refl refl))

  -- By what `get` finds.
  put_at-Writes :
      (d : Dict V) (name : Str) (v : Option V) (r : Found)
      → IsDict d
      → get d.table name ≡ r
      → (d' : Dict V) × (put_at d name v r ≡ some d') × Writes name v d d'
  unfolding put_at
  put_at-Writes d name v Found.endless valid e =
      absurd (get-ne-endless d.table name valid.well.roomy e)
  put_at-Writes d name (some v) absent valid e = put-Writes d name v valid (wide_of d valid) e
  put_at-Writes d name none absent valid e =
      let new = get-absent d.table name valid.well e in
      (d, refl, record { valid = valid; reads = λ j. ground (arith, streq_iff j name, new) })
  put_at-Writes d name none (found i) valid e =
      let (lt, (w, here, _)) = get-found d.table name i valid.well e in
      rm-Writes d i name w valid lt here
  put_at-Writes d name (some v) (found i) valid e =
      let (lt, (w, here, _)) = get-found d.table name i valid.well e in
      (_, rw here, assign-Writes d i name v w valid lt here)

  -- On a valid dictionary, `dictput` ends with a valid one, in which the name has the new value, or none if that is NULL, and every other name what it had.
  pub dictput-dictget :
      (d : Dict V) (name : Str) (v : Option V)
      → IsDict d
      → (d' : Dict V) × (dictput d name v ≡ some d')
        × IsDict d'
        × ((j : Str) → dictget d' j ≡ (if streq j name then some v else dictget d j))
  unfolding dictput
  dictput-dictget d name v valid =
      let (d', run, w) = put_at-Writes d name v (get d.table name) valid refl in
      (d', run, w.valid, Writes-dictget d d' name v valid w)

  -- The two loops agree.
  probe2-probe :
      (f : ℕ) (t : List (Slot V)) (a b : Str) (n : ℕ) → probe2 f t a b n ≡ probe f t (a ++ b) n
  unfolding probe2 probe
  probe2-probe zero t a b n = refl
  probe2-probe (suc f) t a b n =
      ap (probe2_at a b (slot t n) (n % length t)) (probe2-probe f t a b (n + 1))
      ∙ same (slot t n) (n % length t) (probe f t (a ++ b) (n + 1))
    where
      same :
          (x : Slot V) (i : ℕ) (rest : Found) → probe2_at a b x i rest ≡ probe_at (a ++ b) x i rest
      same empty i rest = unfold probe2_at probe_at in refl
      same dead i rest = unfold probe2_at probe_at in refl
      same (used k v) i rest =
          unfold probe2_at probe_at in ap (λ c. if c then found i else rest) (streq2-append k a b)

  -- `dictget2` looks up the catenation of its two names, though it never builds it.
  pub dictget2-dictget : (d : Dict V) (a b : Str) → dictget2 d a b ≡ dictget d (a ++ b)
  unfolding dictget2 dictget get
  dictget2-dictget d a b =
      rw (strhash2-append a b)
        (ap (get_value d.table) (probe2-probe (length d.table) d.table a b _))

-- A new dictionary is valid and empty: a look-up in it ends, with NULL.
pub mkdict-dictget {ℓ} :
    (V : Type ℓ) → IsDict (mkdict {V = V}) × ((j : Str) → dictget (mkdict {V = V}) j ≡ some none)
unfolding mkdict
mkdict-dictget V = (valid, reads)
  where
    valid : IsDict (mkdict {V = V})
    valid = mkdict0-IsDict 2 (omega arith) (0, refl)

    reads : (j : Str) → dictget (mkdict {V = V}) j ≡ some none
    reads j = dictget-look mkdict j valid ∙ ap some (unfold mkdict0 in look-replicate 2 j)
