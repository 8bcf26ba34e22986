-- ===== src/Dict/Remove.antt =====
-- Removing an entry leaves DEAD in its slot, and NULL where no path needs it.
use desh.Common.{
  ℕ, zero, suc, ◌+◌, ◌-◌, ◌%◌, ◌<◌, ◌≡◌, refl, sym, ap, ◌∙◌, none, some, List, if◌then◌else◌, ◌==◌,
  ==_iff, length, length-set, get_or, get_or-set_self, get_or-set_ne, set, Str, inl, inr,
  Bool-cases, arith,
}
use native.Mathlib.Nat.{mod-add-mod, mod-lt, add-mod_right}
use desh.Dict.Hash.{strhash}
use desh.Dict.Look.{look, filled}
use desh.Dict.Vacate.{look-set_vacant, look-vacate, Uniq-vacate, filled-set}
use desh.Dict.Slots.{slot_eq, slot-set, IsPath, IsReached}
use desh.Dict.Probe.{empty_ahead}
use desh.Dict.Insert.{IsDict, Writes, IsReached-set}
use desh.Dict.{
  Slot, empty, dead, used, slot, Dict, while_dead, skip_dead, clear_dead, is_empty, clear_behind,
  rm,
}

mod_next : (a b s : ℕ) → a % s ≡ b % s → (a + 1) % s ≡ (b + 1) % s
mod_next a b s e = sym (mod-add-mod a s 1) ∙ (ap (λ x. (x + 1) % s) e ∙ mod-add-mod b s 1)

-- Stepping back under the mask and on again.
mod_back : (n s : ℕ) → 0 < s → (n + (s - 1) + 1) % s ≡ n % s
mod_back n s pos = ap (λ x. x % s) (omega arith) ∙ add-mod_right n s

module _ {ℓ} {V : Type ℓ} where
  -- The entry goes, its slot is DEAD.
  kill-Writes :
      (d : Dict V) (i : ℕ) (k : Str) (v : V)
      → IsDict d
      → i < length d.table
      → get_or d.table i empty ≡ used k v
      → Writes k none d (record d { table = set d.table i dead })
  kill-Writes d i k v valid lt here =
      let size = filled-set d.table i dead lt in
      let size' : filled (set d.table i dead) + 1 ≡ filled d.table + 1 = rw here at size in
      record {
        valid = record {
          well = record {
            roomy = rw length-set (omega (arith, valid.well.roomy));
            uniq = Uniq-vacate d.table i dead tt valid.well.uniq;
            reached =
                IsReached-set d.table i dead lt (λ e. cc) valid.well.reached
                  (λ k' v' e. absurd (ground (arith, e)));
          };
          budget = rw length-set (omega (arith, valid.budget));
          spare = valid.spare;
          power = rw length-set valid.power;
        };
        reads = λ j. look-vacate d.table i dead k v j valid.well.uniq here tt;
      }

  skip_dead-some :
      (m f n : ℕ) (t : List (Slot V))
      → m < f
      → slot t (n + m) ≡ empty
      → (n' : ℕ) × (skip_dead f t n ≡ some n')
  unfolding skip_dead while_dead
  skip_dead-some m zero n t lt hole = absurd (omega arith)
  skip_dead-some zero (suc f) n t lt hole = (
    n,
    ap (λ x. while_dead x (some n) (skip_dead f t (n + 1)))
        (slot_eq t n (n + 0) (omega arith) ∙ hole),
  )
  skip_dead-some (suc m) (suc f) n t lt hole = go (slot t n) (
      skip_dead-some m f (n + 1) t (omega arith)
        (slot_eq t (n + 1 + m) (n + suc m) (omega arith) ∙ hole))
    where
      go :
          (x : Slot V)
          → ((n' : ℕ) × (skip_dead f t (n + 1) ≡ some n'))
          → (n' : ℕ) × (while_dead x (some n) (skip_dead f t (n + 1)) ≡ some n')
      go empty r = (n, refl)
      go dead r = r
      go (used k v) r = (n, refl)

  -- A table that keeps its map.
  record Keeps (d d' : Dict V) : Type ℓ where
    valid : IsDict d'
    reads : (j : Str) → look d'.table j ≡ look d.table j

  -- A DEAD slot in front of a NULL: no path to an entry goes through it.
  clear-IsReached :
      (t : List (Slot V)) (n : ℕ)
      → 0 < length t
      → slot t n ≡ dead
      → slot t (n + 1) ≡ empty
      → IsReached t
      → IsReached (set t (n % length t) empty)
  clear-IsReached t n pos gone hole old i k v lt here = elim (Bool-cases (i == (n % length t))) [
    | inl e ↦
        let same : i ≡ n % length t = (==_iff i (n % length t)).0 e in
        let hollow = get_or-set_self t (n % length t) empty empty (mod-lt n pos) in
        let there = ap (λ x. get_or (set t (n % length t) empty) x empty) (sym same) ∙ here in
        absurd (ground (arith, hollow, there))
    | inr e ↦
        let entry : get_or t i empty ≡ used k v =
          sym (get_or-set_ne t (n % length t) i empty empty (ground arith)) ∙ here in
        let (m, near, there, path) = old i k v (rw length-set at lt) entry in
        (m, rw length-set near, rw length-set there, spared m i k v there path entry)
  ]
    where
      spared :
          (m i : ℕ) (k : Str) (v : V)
          → (strhash k + m) % length t ≡ i
          → IsPath t (strhash k) m
          → get_or t i empty ≡ used k v
          → IsPath (set t (n % length t) empty) (strhash k) m
      spared m i k v there path entry j near hollow =
          let h = strhash k in
          let now = sym (slot-set t (n % length t) (h + j) empty (mod-lt n pos)) ∙ hollow in
          elim (Bool-cases ((h + j) % length t == (n % length t))) [
            | inr e ↦ path j near (rw e at now)
            | inl e ↦
                let same : (h + j) % length t ≡ n % length t = (==_iff _ _).0 e in
                let behind : slot t (h + j + 1) ≡ empty =
                  ap (λ x. get_or t x empty) (mod_next (h + j) n (length t) same) ∙ hole in
                elim (Bool-cases (suc j == m)) [
                  | inl last ↦
                      let last' : suc j ≡ m = (==_iff (suc j) m).0 last in
                      let found = ap (λ x. get_or t x empty) there ∙ entry in
                      let end = slot_eq t (h + m) (h + j + 1) (omega arith) ∙ behind in
                      ground (arith, found, end)
                  | inr more ↦
                      path (suc j) (ground arith)
                        (slot_eq t (h + suc j) (h + j + 1) (omega arith) ∙ behind)
                ]
          ]

  clear-Keeps :
      (d : Dict V) (n : ℕ)
      → IsDict d
      → slot d.table n ≡ dead
      → slot d.table (n + 1) ≡ empty
      → Keeps d (record { table = set d.table (n % length d.table) empty; remain = d.remain + 1 })
  clear-Keeps d n valid gone hole =
      let i = n % length d.table in
      let inside : i < length d.table = mod-lt n (omega (arith, valid.well.roomy)) in
      let size = filled-set d.table i empty inside in
      let size' : filled (set d.table i empty) + 1 ≡ filled d.table + 0 = rw gone at size in
      record {
        valid = record {
          well = record {
            roomy = rw length-set (omega (arith, valid.well.roomy));
            uniq = Uniq-vacate d.table i empty tt valid.well.uniq;
            reached =
                clear-IsReached d.table n (omega (arith, valid.well.roomy)) gone hole
                  valid.well.reached;
          };
          budget = rw length-set (omega (arith, valid.budget));
          spare = omega arith;
          power = rw length-set valid.power;
        };
        reads = λ j. look-set_vacant d.table i empty j (rw gone tt) tt;
      }

  clear_dead-Keeps :
      (f : ℕ) (d : Dict V) (n : ℕ)
      → IsDict d
      → filled d.table < f
      → slot d.table (n + 1) ≡ empty
      → (d' : Dict V) × (clear_dead f d n ≡ some d') × Keeps d d'
  unfolding clear_dead while_dead
  clear_dead-Keeps zero d n valid lt hole = elim lt [ ]
  clear_dead-Keeps (suc f) d n valid lt hole =
      go (slot d.table n) refl (clear_dead-Keeps f next (n + (length d.table - 1)))
    where
      next : Dict V
      next = record { table = set d.table (n % length d.table) empty; remain = d.remain + 1 }

      go :
          (x : Slot V)
          → slot d.table n ≡ x
          → (IsDict next
              → filled next.table < f
              → slot next.table (n + (length d.table - 1) + 1) ≡ empty
              → (d' : Dict V) × (clear_dead f next (n + (length d.table - 1)) ≡ some d')
                × Keeps next d')
          → (d' : Dict V) × (while_dead x (some d) (clear_dead f next (n + (length d.table - 1)))
              ≡ some d')
            × Keeps d d'
      go empty e more = (d, refl, record { valid = valid; reads = λ j. refl })
      go (used k v) e more = (d, refl, record { valid = valid; reads = λ j. refl })
      go dead e more =
          let pos : 0 < length d.table = omega (arith, valid.well.roomy) in
          let inside = mod-lt n pos in
          let step = clear-Keeps d n valid e hole in
          let size = filled-set d.table (n % length d.table) empty inside in
          let size' : filled next.table + 1 ≡ filled d.table + 0 = rw e at size in
          let now =
            ap (λ x. get_or next.table x empty)
              (ap (λ l. (n + (length d.table - 1) + 1) % l)
                  (length-set d.table (n % length d.table) empty)
                ∙ mod_back n (length d.table) pos)
            ∙ get_or-set_self d.table (n % length d.table) empty empty inside in
          let (d', run, kept) = more step.valid (omega arith) now in
          (d', run, record { valid = kept.valid; reads = λ j. kept.reads j ∙ step.reads j })

  clear_behind-Keeps :
      (d : Dict V) (n : ℕ) → IsDict d → (d' : Dict V) × (clear_behind d n ≡ some d') × Keeps d d'
  unfolding clear_behind
  clear_behind-Keeps d n valid = go (slot d.table n) refl
    where
      back : ℕ
      back = n + (length d.table - 1)

      go :
          (x : Slot V)
          → slot d.table n ≡ x
          → (d' : Dict V) × ((if is_empty x then clear_dead (length d.table + 1) d back else some d)
              ≡ some d')
            × Keeps d d'
      go dead e = (d, refl, record { valid = valid; reads = λ j. refl })
      go (used k v) e = (d, refl, record { valid = valid; reads = λ j. refl })
      go empty e =
          clear_dead-Keeps (length d.table + 1) d back valid (omega (arith, valid.well.roomy)) (
            ap (λ x. get_or d.table x empty)
              (mod_back n (length d.table) (omega (arith, valid.well.roomy)))
            ∙ e)

  -- `rm` ends, and takes out the one name.
  pub rm-Writes :
      (d : Dict V) (i : ℕ) (k : Str) (v : V)
      → IsDict d
      → i < length d.table
      → get_or d.table i empty ≡ used k v
      → (d' : Dict V) × (rm d i ≡ some d') × Writes k none d d'
  unfolding rm
  rm-Writes d i k v valid lt here =
      let w = kill-Writes d i k v valid lt here in
      let t = set d.table i dead in
      let (m, near, hole) = empty_ahead t (i + 1) w.valid.well.roomy in
      let (n, run) = skip_dead-some m (length d.table) (i + 1) t (rw length-set at near) hole in
      let (d', run', kept) = clear_behind-Keeps (record d { table = t }) n w.valid in
      (d', rw run run', record { valid = kept.valid; reads = λ j. kept.reads j ∙ w.reads j })
