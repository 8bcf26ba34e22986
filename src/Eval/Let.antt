-- ===== src/Eval/Let.antt =====
-- src/eval.c: assignments, `let` and `local`.
use desh.Common.{true, false, none, List, [], ◌∷◌, Str, codes, map, reverse}
use desh.Glom.Terms.{NodeKind, Tree, Term, Failure, Outcome}
use desh.Glom.Concat.{getstr}
use desh.Glom.Walk.{Call, after, Shell, glom}
use desh.Var.Dictionary.{Dictionary}
use desh.Var.State.{Var}
use desh.Var.Assign.{varpush}
use desh.Eval.State.{Ref, Value, Flags, no_flags, Sh, Rec, Outside, has_binding}
use desh.Eval.Bindings.{chain, share, mkbindings, varlookup, vardef_all}
use desh.Eval.Throw.{eval_alone, pop}

-- An entry of a list of definitions: NULL, an assignment, or what the assertions refuse.
pub data Defn : Type 0 where
  absent refused : Defn
  assigned : Tree → Tree → Defn

abbrev pub as_defn : Tree → Defn
as_defn Tree.null = Defn.absent
as_defn (Tree.other NodeKind.assign_node vars values) = Defn.assigned vars values
as_defn t = Defn.refused

-- `for (; defn != NULL; defn = defn->u[1].p)`
unfoldable pub defns : Tree → List Defn
defns Tree.null = []
defns (Tree.list t u) = as_defn t ∷ defns u
defns t = Defn.refused ∷ []

abbrev pub ltrue : List Value
ltrue = Term.text (codes "0") ∷ []

abbrev pub lfalse : List Value
lfalse = Term.text (codes "1") ∷ []

module _ {W : Type 0} (dict : Dictionary (Var Value)) (outside : Outside W dict)
    (rec : Rec W dict) where
  abbrev pub shell : Shell Ref (Sh W dict)
  shell = record {
    unparse = outside.unparse;
    atoi = outside.atoi;
    varlookup = varlookup dict outside;
    walk = λ t b. rec.walk t b no_flags;
    glob = outside.glob rec;
  }

  abbrev pub words : List Value → List Str
  words list = map (getstr outside.unparse) list

  -- `glom` for the variables and for the values, `use_of` the pairs, and the failure of the
  -- function `from` if there are no variables.
  abbrev pub with_vars : {A : Type 0} → Str → List Value → Call (Sh W dict) A → Call (Sh W dict) A
  with_vars from [] next st = (Outcome.failed (Failure.null_variable from), st)
  with_vars from (v ∷ vars) next st = next st

  unfoldable pub assign_vars : Tree → Tree → Ref → Call (Sh W dict) (List Value)
  unfolding glom vardef_all share
  assign_vars varform valueform binding st = after (glom shell varform binding false st) (λ vars.
      with_vars (codes "es:assign") vars (λ st'.
        after (glom shell valueform binding true st') (λ values st''.
          after
            (vardef_all dict outside (eval_alone dict outside rec) (share (words vars) values)
              binding st'')
            (λ u st'''. (Outcome.value values, st''')))))

  -- A round of the loop of `letbindings`.
  unfoldable pub let_defn : Defn → Ref → Ref → Call (Sh W dict) Ref
  unfolding glom mkbindings share
  let_defn Defn.absent binding context st = (Outcome.value binding, st)
  let_defn Defn.refused binding context st = (Outcome.null_read, st)
  let_defn (Defn.assigned varform valueform) binding context st =
      after (glom shell varform context false st) (λ vars st'.
        after (glom shell valueform context true st') (λ values.
          with_vars (codes "es:let") vars
            (mkbindings dict outside (share (words vars) values) binding)))

  unfoldable pub letbindings : List Defn → Ref → Ref → Call (Sh W dict) Ref
  unfolding let_defn
  letbindings [] binding context st = (Outcome.value binding, st)
  letbindings (d ∷ ds) binding context st =
      after (let_defn d binding context st) (λ b. letbindings ds b context)

  unfoldable pub localbind :
      List (Str × List Value) → Ref → Tree → Flags → Call (Sh W dict) (List Value)
  localbind [] lexical body flags st = rec.walk body lexical flags st
  localbind ((name, defn) ∷ dynamic) lexical body flags st =
      after (varpush dict has_binding Term.text (eval_alone dict outside rec) name defn st)
        (λ u st'. after (localbind dynamic lexical body flags st') (λ result st''.
          after (pop dict outside rec st'') (λ u' st'''. (Outcome.value result, st'''))))

  unfoldable pub local : Tree → Tree → Ref → Flags → Call (Sh W dict) (List Value)
  unfolding letbindings localbind defns chain
  local defn body bindings flags st =
      after (letbindings (defns defn) none bindings st)
        (λ b st'. localbind (reverse (chain st'.rest.bindings b)) bindings body flags st')
