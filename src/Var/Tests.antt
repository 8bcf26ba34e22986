-- ===== src/Var/Tests.antt =====
-- Runs of the operations on variables, and the theorem at a concrete input.
use desh.Common.{Bool, true, false, none, some, List, [], ◌∷◌, Str, codes, ◌≡◌, refl, inl}
use desh.Dict.{mkdict}
use desh.Dict.Laws.{mkdict-dictget}
use desh.Glom.Terms.{Outcome}
use desh.Glom.Walk.{Call, after}
use desh.Var.Dictionary.{Dictionary, valid_dictionary}
use desh.Var.State.{Var, Vars, iscounting, validatevar, isexported, specialvar}
use desh.Var.Assign.{varpush, varpop}
use desh.Var.Scope.{value, NoSettor, varpop-varpush}

iscounting_test : iscounting (codes "007") ≡ true
unfolding iscounting
iscounting_test = refl

iscounting_zeros_test : iscounting (codes "00") ≡ false
unfolding iscounting
iscounting_zeros_test = refl

isexported_test : isexported none (codes "*") ≡ false
unfolding isexported
isexported_test = refl

abbrev dictionary : Dictionary (Var Str)
dictionary = valid_dictionary (Var Str)

abbrev no_binding : Str → Bool
no_binding s = false

abbrev same : Str → Str
same s = s

abbrev no_eval : List Str → Call (Vars Str dictionary Unit) (List Str)
no_eval xs st = (Outcome.null_read, st)

-- `*` is `a b`.
abbrev old_var : Var Str
old_var = record {
  env = none;
  defn = codes "a" ∷ codes "b" ∷ [];
  hasbindings_flag = false;
  isinternal_flag = false;
}

start : Vars Str dictionary Unit
unfolding valid_dictionary
start = record {
  vars = dictionary.put (mkdict, (mkdict-dictget (Var Str)).0) (codes "*") (some old_var);
  noexport = none;
  isdirty = false;
  pushlist = [];
  rest = tt;
}

varpop-varpush_example :
    (st' : Vars Str dictionary Unit) × (after
        (varpush dictionary no_binding same no_eval (codes "*") (codes "c" ∷ []) start)
        (λ u. varpop dictionary no_binding same no_eval)
      ≡ (Outcome.value tt, st'))
    × (st'.pushlist ≡ start.pushlist)
    × ((j : Str)
        → value dictionary no_binding same no_eval st' j
          ≡ value dictionary no_binding same no_eval start j)
unfolding validatevar NoSettor specialvar
varpop-varpush_example =
    varpop-varpush dictionary no_binding same no_eval (codes "*") (codes "c" ∷ []) start refl
      (inl refl)
