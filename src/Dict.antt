-- ===== src/Dict.antt =====
-- src/dict.c: dictionaries as hash tables with open addressing.
-- A dictionary that the code changes in place is returned changed. A position is the code's `n`,
-- any number; `n & mask` is `n % size`, since the size is a power of two.
pub mod Hash
pub mod Look
pub mod Slots
pub mod Vacate
pub mod Probe
pub mod Placing
pub mod Insert
pub mod Grow
pub mod Remove
pub mod Laws
mod Tests
use desh.Common.{
  ℕ, zero, suc, ◌+◌, ◌-◌, ◌*◌, ◌/◌, ◌%◌, Bool, true, false, Option, none, some, List, [], ◌∷◌, leb,
  if◌then◌else◌, ◌>>=◌, length, get_or, set, replicate, Str, streq,
}
use desh.Dict.Hash.{strhash, strhash2, streq2}

-- An `Assoc`: the name is NULL, DEAD or a string. Only with a string there is a value.
pub data Slot {ℓ} (V : Type ℓ) : Type ℓ where
  empty dead : Slot V
  used : Str → V → Slot V

-- `size` is the length of the table.
pub record Dict {ℓ} (V : Type ℓ) : Type ℓ where
  pub table : List (Slot V)
  pub remain : ℕ

-- `REMAIN(n)`
abbrev pub remain_of : ℕ → ℕ
remain_of n = n * 2 / 3

abbrev pub init_dict_size : ℕ
init_dict_size = 2

-- Where a search ends: at an `Assoc`, without one, or never.
pub data Found : Type 0 where
  found : ℕ → Found
  absent endless : Found

-- Where a new name goes, and whether that slot was NULL.
pub data Place : Type 0 where
  place : ℕ → Bool → Place
  endless : Place

module _ {ℓ} {V : Type ℓ} where
  pub mkdict0 : ℕ → Dict V
  mkdict0 size = record { table = replicate size empty; remain = remain_of size }

  unfoldable pub mkdict : Dict V
  unfolding mkdict0
  mkdict = mkdict0 init_dict_size

  -- `&dict->table[n & mask]`
  abbrev pub slot : List (Slot V) → ℕ → Slot V
  slot t n = get_or t (n % length t) empty

  -- One round of the loop of `get`, at a slot with its index.
  pub probe_at : Str → Slot V → ℕ → Found → Found
  probe_at name empty i rest = absent
  probe_at name dead i rest = rest
  probe_at name (used k v) i rest = if streq name k then found i else rest

  -- The loop of `get`, from position `n`. The fuel is the size: one round trip.
  pub probe : ℕ → List (Slot V) → Str → ℕ → Found
  probe zero t name n = endless
  probe (suc f) t name n = probe_at name (slot t n) (n % length t) (probe f t name (n + 1))

  pub get : List (Slot V) → Str → Found
  unfolding probe probe_at
  get t name = probe (length t) t name (strhash name)

  -- The value of the `Assoc` that `get` returns.
  abbrev pub value_of : Slot V → Option V
  value_of empty = none
  value_of dead = none
  value_of (used k v) = some v

  -- `none` stands for a search that never ends.
  abbrev pub get_value : List (Slot V) → Found → Option (Option V)
  get_value t (found i) = some (value_of (get_or t i empty))
  get_value t absent = some none
  get_value t endless = none

  unfoldable pub dictget : Dict V → Str → Option (Option V)
  unfolding get
  dictget d name = get_value d.table (get d.table name)

  -- One round of the loop of `dictget2`.
  pub probe2_at : Str → Str → Slot V → ℕ → Found → Found
  probe2_at name1 name2 empty i rest = absent
  probe2_at name1 name2 dead i rest = rest
  probe2_at name1 name2 (used k v) i rest = if streq2 k name1 name2 then found i else rest

  -- The loop of `dictget2`, which compares with two names in turn.
  pub probe2 : ℕ → List (Slot V) → Str → Str → ℕ → Found
  probe2 zero t name1 name2 n = endless
  probe2 (suc f) t name1 name2 n =
      probe2_at name1 name2 (slot t n) (n % length t) (probe2 f t name1 name2 (n + 1))

  unfoldable pub dictget2 : Dict V → Str → Str → Option (Option V)
  unfolding probe2 probe2_at
  dictget2 d name1 name2 =
      get_value d.table (probe2 (length d.table) d.table name1 name2 (strhash2 name1 name2))

  -- One round of the loop at the end of `put`.
  pub place_at : Slot V → ℕ → Place → Place
  place_at empty i rest = place i true
  place_at dead i rest = place i false
  place_at (used k v) i rest = rest

  -- The loop at the end of `put`.
  pub find_place : ℕ → List (Slot V) → ℕ → Place
  find_place zero t n = endless
  find_place (suc f) t n = place_at (slot t n) (n % length t) (find_place f t (n + 1))

  abbrev pub fill : Dict V → Str → V → Place → Option (Dict V)
  fill d name v (place i fresh) = some (record {
    table = set d.table i (used name v);
    remain = if fresh then d.remain - 1 else d.remain;
  })
  fill d name v endless = none

  -- `assert(get(dict, name) == NULL)`, and then what follows.
  abbrev pub when_absent : Found → Option (Dict V) → Option (Dict V)
  when_absent (found i) next = none
  when_absent absent next = next
  when_absent endless next = none

  -- `put` behind the test of `remain`. `none` is an assertion that fails, or a loop without end.
  pub put_here : Dict V → Str → V → Option (Dict V)
  put_here d name v = fill d name v (find_place (length d.table) d.table (strhash name))

  -- `put` as `dictforall` calls it on the new dictionary while the old one grows. The caller drops
  -- the dictionary that is returned, so a further growth would leave the argument as it is.
  pub put_dropped : Dict V → Str → V → Option (Dict V)
  put_dropped d name v =
      when_absent (get d.table name) (if leb d.remain 1 then some d else put_here d name v)

  -- `dictforall(old, put, dnew)`
  pub put_all : List (Slot V) → Dict V → Option (Dict V)
  put_all [] d = some d
  put_all (empty ∷ t) d = put_all t d
  put_all (dead ∷ t) d = put_all t d
  put_all (used k v ∷ t) d = put_dropped d k v >>= put_all t

  pub grow : Dict V → Option (Dict V)
  grow d = put_all d.table (mkdict0 (length d.table * 2))

  pub put : Dict V → Str → V → Option (Dict V)
  put d name v =
      when_absent (get d.table name)
        (if leb d.remain 1 then grow d >>= (λ d'. put_here d' name v) else put_here d name v)

  -- One round of a loop that goes on while the slot is DEAD.
  pub while_dead {κ} : {A : Type κ} → Slot V → A → A → A
  while_dead empty stop rest = stop
  while_dead dead stop rest = rest
  while_dead (used k v) stop rest = stop

  -- The loop `for (n++; … == DEAD; n++)`: the first position from `n` on that is not DEAD.
  pub skip_dead : ℕ → List (Slot V) → ℕ → Option ℕ
  skip_dead zero t n = none
  skip_dead (suc f) t n = while_dead (slot t n) (some n) (skip_dead f t (n + 1))

  -- The loop `for (n--; … == DEAD; n--)`; `n - 1` is `n + (size - 1)` under the mask.
  pub clear_dead : ℕ → Dict V → ℕ → Option (Dict V)
  clear_dead zero d n = none
  clear_dead (suc f) d n = while_dead (slot d.table n) (some d) (
      clear_dead f
        (record { table = set d.table (n % length d.table) empty; remain = d.remain + 1 })
        (n + (length d.table - 1)))

  abbrev pub is_empty : Slot V → Bool
  is_empty empty = true
  is_empty dead = false
  is_empty (used k v) = false

  -- The test between the loops of `rm`, at the position `n` that the first one reached.
  pub clear_behind : Dict V → ℕ → Option (Dict V)
  clear_behind d n =
      if is_empty (slot d.table n)
      then clear_dead (length d.table + 1) d (n + (length d.table - 1))
      else some d

  pub rm : Dict V → ℕ → Option (Dict V)
  rm d i =
      let d' = record d { table = set d.table i dead } in
      skip_dead (length d.table) d'.table (i + 1) >>= clear_behind d'

  -- `ap->value = value`
  abbrev pub assign : Slot V → V → Slot V
  assign empty v = empty
  assign dead v = dead
  assign (used k w) v = used k v

  -- `dictput`; a NULL value removes the name.
  pub put_at : Dict V → Str → Option V → Found → Option (Dict V)
  put_at d name (some v) absent = put d name v
  put_at d name (some v) (found i) =
      some (record d { table = set d.table i (assign (get_or d.table i empty) v) })
  put_at d name none absent = some d
  put_at d name none (found i) = rm d i
  put_at d name v endless = none

  unfoldable pub dictput : Dict V → Str → Option V → Option (Dict V)
  unfolding put_at put put_here put_dropped put_all grow mkdict0 find_place place_at rm skip_dead
      while_dead clear_dead clear_behind get
  dictput d name v = put_at d name v (get d.table name)

  -- `dictforall`, as the list of the calls that it makes.
  unfoldable pub dictforall : List (Slot V) → List (Str × V)
  dictforall [] = []
  dictforall (empty ∷ t) = dictforall t
  dictforall (dead ∷ t) = dictforall t
  dictforall (used k v ∷ t) = (k, v) ∷ dictforall t
