-- ===== src/Eval/Run.antt =====
-- src/eval.c: `eval`, with the closures and commands that it calls, and the evaluator as a whole.
use desh.Common.{
  ℕ, zero, suc, ◌+◌, ◌-◌, Bool, true, false, ◌&&◌, ◌||◌, not, leb, Option, none, some, List, [],
  ◌∷◌, ◌++◌, ◌==◌, if◌then◌else◌, Str, codes,
}
use desh.Glom.Terms.{Tree, Term, Failure, Outcome}
use desh.Glom.Concat.{getstr}
use desh.Glom.Walk.{Call, after, glom}
use desh.Env.{hasprefix}
use desh.Status.{istrue, exitstatus}
use desh.Var.Dictionary.{Dictionary}
use desh.Var.State.{Var}
use desh.Var.Assign.{varpush}
use desh.Eval.State.{Ref, Value, Flags, no_flags, Sh, Rec, Outside, has_binding}
use desh.Eval.Bindings.{share, isabsolute, mkbinding, mkbindings, varlookup, lookup_function}
use desh.Eval.Throw.{eval_alone, pop, throwing, catching, catch_named}
use desh.Eval.Let.{shell, ltrue}
use desh.Eval.Walk.{walk_step}

-- `s[strlen(s) - 1] == '}'`
unfoldable pub ends_in_brace : Str → Bool
ends_in_brace [] = false
ends_in_brace (c ∷ []) = c == b'}'
ends_in_brace (c ∷ d ∷ s) = ends_in_brace (d ∷ s)

-- The test of `getclosure` on a string.
unfoldable pub looks_like_closure : Str → Bool
unfolding ends_in_brace hasprefix
looks_like_closure s =
    ((hasprefix s (codes "{") || hasprefix s (codes "@")) && ends_in_brace s)
    || hasprefix s (codes "$&")
    || hasprefix s (codes "%closure")

-- The words that are the parameters of a lambda; `none` is an assertion that fails.
unfoldable pub parameters : Tree → Option (List Str)
parameters Tree.null = some []
parameters (Tree.list (Tree.word w) t) = elim (parameters t) [
  | none ↦ none
  | some ws ↦ some (w ∷ ws)
]
parameters (Tree.list (Tree.qword w) t) = elim (parameters t) [
  | none ↦ none
  | some ws ↦ some (w ∷ ws)
]
parameters t = none

abbrev pub binding_of : Option Ref → Ref
binding_of none = none
binding_of (some r) = r

module _ {W : Type 0} (dict : Dictionary (Var Value)) (outside : Outside W dict)
    (rec : Rec W dict) where
  unfoldable pub getclosure : Value → Call (Sh W dict) (Option (Tree × Ref))
  unfolding looks_like_closure
  getclosure (Term.closure t b) st = (Outcome.value (some (t, binding_of b)), st)
  getclosure (Term.text s) st =
      if looks_like_closure s then outside.parse_closure rec s st else (Outcome.value none, st)

  unfoldable pub bindargs : Option (List Str) → List Value → Ref → Call (Sh W dict) Ref
  unfolding mkbinding mkbindings share
  bindargs none args binding st = (Outcome.null_read, st)
  bindargs (some []) args binding st = mkbinding dict outside (codes "*") args binding st
  bindargs (some (p ∷ params)) args binding st =
      mkbindings dict outside (share (p ∷ params) args) binding st

  abbrev pub set_depth : ℕ → Sh W dict → Sh W dict
  set_depth n st = record st { rest = record st.rest { evaldepth = n } }

  -- `eval` from the label `done` on.
  unfoldable pub finish : Flags → List Value → Call (Sh W dict) (List Value)
  unfolding istrue exitstatus
  finish flags list st =
      let st' = set_depth (st.rest.evaldepth - 1) st in
      if flags.exitonfalse && not (istrue list)
      then (Outcome.failed (Failure.exit (exitstatus outside.strtol list)), st')
      else (Outcome.value list, st')

  -- The call with `$0` defined, if the function has a name.
  unfoldable pub named : Option Str → Call (Sh W dict) (List Value) → Call (Sh W dict) (List Value)
  named none call st = call st
  named (some funcname) call st =
      after
        (varpush dict has_binding Term.text (eval_alone dict outside rec) (codes "0")
          (Term.text funcname ∷ []) st)
        (λ u st'.
          after (call st')
            (λ list st''. after (pop dict outside rec st'') (λ u' s. (Outcome.value list, s))))

  -- `case nLambda`
  unfoldable pub call_lambda :
      Option Str → Tree → Tree → Ref → List Value → Flags → Call (Sh W dict) (List Value)
  unfolding bindargs named catching parameters
  call_lambda funcname params body context args flags =
      catching dict outside rec
        (throwing dict outside rec (λ st.
          after (bindargs (parameters params) args context st)
            (λ b. named funcname (rec.walk body b flags))))
        (catch_named dict outside rec (codes "return"))

  -- `list = append(list, list->next)` in `case nList`, on what `glom` has just returned.
  abbrev pub doubled : Option Str → List Value → Ref → Flags → Call (Sh W dict) (List Value)
  doubled funcname [] binding flags st = (Outcome.null_read, st)
  doubled funcname (v ∷ vs) binding flags st =
      rec.restart funcname ((v ∷ vs) ++ vs) binding flags st

  abbrev pub call_prim : Str → Ref → List Value → Ref → Flags → Call (Sh W dict) (List Value)
  call_prim w none args binding flags st =
      after (outside.prim rec w args binding flags st) (finish flags)
  call_prim w (some n) args binding flags st = (Outcome.null_read, st)

  -- The switch on the kind of a closure; `null_read` is also the end by `panic`.
  unfoldable pub call_closure :
      Tree → Ref → Option Str → List Value → Ref → Flags → Call (Sh W dict) (List Value)
  unfolding finish call_lambda glom
  call_closure (Tree.prim w) cb funcname args binding flags = call_prim w cb args binding flags
  call_closure (Tree.thunk t) cb funcname args binding flags =
      λ st. after (rec.walk t cb flags st) (finish flags)
  call_closure (Tree.lambda params body) cb funcname args binding flags =
      λ st. after (call_lambda funcname params body cb args flags st) (finish flags)
  call_closure (Tree.list t u) cb funcname args binding flags = λ st.
      after (throwing dict outside rec (glom (shell dict outside rec) (Tree.list t u) cb true) st)
        (λ list. doubled funcname list binding flags)
  call_closure t cb funcname args binding flags = λ st. (Outcome.null_read, st)

  abbrev pub run_file : Str → List Value → Flags → Call (Sh W dict) (List Value)
  run_file file list flags st =
      after (outside.forkexec rec file list flags.inchild st) (finish flags)

  abbrev pub search_with : Value → List Value → Call (Sh W dict) (List Value)
  search_with t [] st = (Outcome.failed (Failure.no_pathsearch (getstr outside.unparse t)), st)
  search_with t (f ∷ fs) st = rec.eval ((f ∷ fs) ++ (t ∷ [])) none no_flags st

  unfoldable pub pathsearch : Value → Call (Sh W dict) (List Value)
  unfolding varlookup
  pathsearch t st = after (varlookup dict outside (codes "fn-%pathsearch") none st) (search_with t)

  -- One word that is no closure is a file.
  abbrev pub run_found :
      Option (Tree × Ref)
      → Value
      → Value
      → Option Str
      → List Value
      → Ref
      → Flags
      → Call (Sh W dict) (List Value)
  run_found none f t funcname args binding flags =
      run_file (getstr outside.unparse f) (t ∷ args) flags
  run_found (some c) f t funcname args binding flags = rec.restart funcname (f ∷ args) binding flags

  -- What is done with the result of `pathsearch`.
  unfoldable pub found_command :
      Value → Option Str → List Value → List Value → Ref → Flags → Call (Sh W dict) (List Value)
  unfolding getclosure
  found_command t funcname [] args binding flags st = rec.restart funcname args binding flags st
  found_command t funcname (f ∷ []) args binding flags st =
      after (throwing dict outside rec (getclosure f) st)
        (λ cp. run_found cp f t funcname args binding flags)
  found_command t funcname (f ∷ g ∷ fs) args binding flags st =
      rec.restart funcname ((f ∷ g ∷ fs) ++ args) binding flags st

  -- `checkexecutable`, and then the command.
  abbrev pub run_absolute : Str → List Value → Flags → Option Str → Call (Sh W dict) (List Value)
  run_absolute name list flags none st = run_file name list flags st
  run_absolute name list flags (some error) st =
      throwing dict outside rec (λ s. (Outcome.failed (Failure.not_executable name error), s)) st

  -- A name that no function has.
  unfoldable pub call_command :
      Value → Option Str → List Value → Ref → Flags → Call (Sh W dict) (List Value)
  unfolding pathsearch found_command finish
  call_command t funcname args binding flags st =
      let name = getstr outside.unparse t in
      if isabsolute name
      then run_absolute name (t ∷ args) flags (outside.checkexecutable name st.rest.world) st
      else after (throwing dict outside rec (pathsearch t) st)
          (λ fn. found_command t funcname fn args binding flags)

  abbrev pub call_function :
      List Value → Value → Option Str → List Value → Ref → Flags → Call (Sh W dict) (List Value)
  call_function [] t funcname args binding flags st = call_command t funcname args binding flags st
  call_function (f ∷ fs) t funcname args binding flags st =
      rec.restart (some (getstr outside.unparse t)) ((f ∷ fs) ++ args) binding flags st

  unfoldable pub call_name :
      Value → Option Str → List Value → Ref → Flags → Call (Sh W dict) (List Value)
  unfolding call_command lookup_function
  call_name t funcname args binding flags st =
      call_function
        (lookup_function dict outside (codes "fn-") (getstr outside.unparse t) binding st) t
        funcname args binding flags st

  -- What is done with the closure of the first term.
  abbrev pub call_term :
      Option (Tree × Ref)
      → Value
      → Option Str
      → List Value
      → Ref
      → Flags
      → Call (Sh W dict) (List Value)
  call_term none t funcname args binding flags = call_name t funcname args binding flags
  call_term (some (tree, cb)) t funcname args binding flags =
      call_closure tree cb funcname args binding flags

  -- `eval` from the label `restart` on.
  unfoldable pub restart_step :
      Option Str → List Value → Ref → Flags → Call (Sh W dict) (List Value)
  unfolding call_closure call_name getclosure
  restart_step funcname [] binding flags st =
      (Outcome.value ltrue, set_depth (st.rest.evaldepth - 1) st)
  restart_step funcname (t ∷ args) binding flags st =
      after (throwing dict outside rec (getclosure t) st)
        (λ cp. call_term cp t funcname args binding flags)

  unfoldable pub eval_step : List Value → Ref → Flags → Call (Sh W dict) (List Value)
  eval_step list binding flags st =
      let st' = set_depth (st.rest.evaldepth + 1) st in
      if leb (outside.maxevaldepth st.rest.world) (st.rest.evaldepth + 1)
      then throwing dict outside rec (λ s. (Outcome.failed Failure.too_deep, s)) st'
      else rec.restart none list binding flags st'

module _ {W : Type 0} (dict : Dictionary (Var Value)) (outside : Outside W dict) where
  -- Calls with a depth of recursion below `n`, which counts the rounds from `restart` on too.
  unfoldable pub run : ℕ → Rec W dict
  unfolding restart_step eval_step walk_step
  run zero = record {
    eval = λ list b flags st. (Outcome.failed Failure.out_of_fuel, st);
    restart = λ funcname list b flags st. (Outcome.failed Failure.out_of_fuel, st);
    walk = λ t b flags st. (Outcome.failed Failure.out_of_fuel, st);
  }
  run (suc n) = record {
    eval = eval_step dict outside (run n);
    restart = restart_step dict outside (run n);
    walk = walk_step dict outside (run n);
  }
