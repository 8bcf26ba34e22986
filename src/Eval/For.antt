-- ===== src/Eval/For.antt =====
-- src/eval.c: `for`.
use desh.Common.{
  ℕ, zero, suc, ◌+◌, Bool, true, false, List, [], ◌∷◌, ◌++◌, if◌then◌else◌, Str, codes, length,
  drop, map,
}
use desh.Glom.Terms.{Tree, Failure, Outcome}
use desh.Glom.Walk.{Call, after, glom}
use desh.Var.Dictionary.{Dictionary}
use desh.Var.State.{Var, validatevar}
use desh.Var.Assign.{name_failure}
use desh.Eval.State.{Ref, Value, Flags, Sh, Rec, Outside}
use desh.Eval.Bindings.{mkbindings}
use desh.Eval.Throw.{throwing, catching, catch_named, sigchk}
use desh.Eval.Let.{Defn, defns, ltrue, shell, words, with_vars}

-- The variables of an assignment of a for loop, and what is left of its list.
abbrev pub Group : Type 0
Group = List Str × List Value

-- A value for each variable of a round, or NULL.
unfoldable pub deal : List Str → List Value → List (Str × List Value)
deal [] list = []
deal (x ∷ names) [] = (x, []) ∷ deal names []
deal (x ∷ names) (v ∷ list) = (x, v ∷ []) ∷ deal names list

unfoldable pub deal_all : List Group → List (Str × List Value)
unfolding deal
deal_all [] = []
deal_all ((names, list) ∷ groups) = deal names list ++ deal_all groups

abbrev pub dealt : Group → Group
dealt (names, list) = (names, drop (length names) list)

-- `allnull`
unfoldable pub all_null : List Group → Bool
all_null [] = true
all_null ((names, []) ∷ groups) = all_null groups
all_null ((names, v ∷ list) ∷ groups) = false

unfoldable pub total : List Group → ℕ
total [] = 0
total ((names, list) ∷ groups) = length list + total groups

module _ {W : Type 0} (dict : Dictionary (Var Value)) (outside : Outside W dict)
    (rec : Rec W dict) where
  -- `validatevar` on each of the names.
  abbrev pub validate_all : List Str → Call (Sh W dict) Unit
  validate_all [] st = (Outcome.value tt, st)
  validate_all (name ∷ names) st =
      if validatevar name then validate_all names st else (Outcome.failed (name_failure name), st)

  -- A round of the first loop of `forloop`.
  unfoldable pub for_defn : Defn → Ref → Call (Sh W dict) (List Group)
  unfolding glom sigchk
  for_defn Defn.absent outer st = (Outcome.value [], st)
  for_defn Defn.refused outer st = (Outcome.null_read, st)
  for_defn (Defn.assigned varform valueform) outer st =
      after (glom (shell dict outside rec) varform outer false st) (λ vars st'.
        after (glom (shell dict outside rec) valueform outer true st') (λ list.
          with_vars dict outside rec (codes "es:for") vars (λ st''.
            after (validate_all (words dict outside rec vars) st'') (λ u st'''.
              after (sigchk dict outside rec st''')
                (λ u' s. (Outcome.value ((words dict outside rec vars, list) ∷ []), s))))))

  unfoldable pub for_defns : List Defn → Ref → Call (Sh W dict) (List Group)
  unfolding for_defn
  for_defns [] outer st = (Outcome.value [], st)
  for_defns (d ∷ ds) outer st = after (for_defn d outer st) (λ group st'.
      after (for_defns ds outer st') (λ groups st''. (Outcome.value (group ++ groups), st'')))

  -- The rounds of the loop, each of which takes at least one value, but the last one.
  unfoldable pub for_rounds :
      ℕ → List Group → Tree → Ref → Flags → List Value → Call (Sh W dict) (List Value)
  unfolding mkbindings deal_all all_null sigchk
  for_rounds zero groups body outer flags result st = (Outcome.failed Failure.out_of_fuel, st)
  for_rounds (suc fuel) groups body outer flags result st =
      after (mkbindings dict outside (deal_all groups) outer st) (λ bp st'.
        if all_null groups
        then (Outcome.value result, st')
        else after (rec.walk body bp flags st') (λ list st''.
          after (sigchk dict outside rec st'')
            (λ u. for_rounds fuel (map dealt groups) body outer flags list)))

  abbrev pub only_exit : Flags → Flags
  only_exit flags = record { inchild = false; exitonfalse = flags.exitonfalse }

  unfoldable pub forloop : Tree → Tree → Ref → Flags → Call (Sh W dict) (List Value)
  unfolding for_defns for_rounds catching total defns
  forloop defn body outer flags st = after (for_defns (defns defn) outer st) (λ groups.
      catching dict outside rec
        (throwing dict outside rec
          (for_rounds (total groups + 1) groups body outer (only_exit flags) ltrue))
        (catch_named dict outside rec (codes "break")))
