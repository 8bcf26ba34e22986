-- ===== src/Eval/Commands.antt =====
-- src/eval.c: the scope of `eval` around functions and commands.
use desh.Common.{
  ℕ, ◌+◌, ◌-◌, true, false, leb, Option, none, some, List, [], ◌∷◌, ◌++◌, ◌≡◌, refl, arith,
  if_split, Str, codes,
}
use desh.Glom.Terms.{Tree, Failure, Outcome}
use desh.Glom.Concat.{getstr}
use desh.Var.Dictionary.{Dictionary}
use desh.Var.State.{Var}
use desh.Eval.State.{Ref, Value, Flags, no_flags, Sh, Rec, Outside}
use desh.Eval.Bindings.{isabsolute, varlookup, lookup_function}
use desh.Eval.Throw.{throwing}
use desh.Eval.Run.{
  getclosure, set_depth, finish, run_file, search_with, pathsearch, run_found, found_command,
  run_absolute, call_command, call_function, call_name, call_term, restart_step, eval_step,
}
use desh.Eval.Ends.{
  whole, IsRaw, Ends, ends_value, ends_raw, IsNested, Keeps, Held-refl, from_Same, bind, weaken,
}
use desh.Eval.Throws.{IsKeeping, lowered, failing-Ends}
use desh.Eval.Words.{varlookup-Keeps}
use desh.Eval.Calls.{
  IsDisciplined, Lowers, lowered-Held, then-Lowers, finish-Lowers, getclosure-Keeps, thrown-Keeps,
  call_closure-Lowers,
}

module _ {W : Type 0} {dict : Dictionary (Var Value)} (outside : Outside W dict)
    (disciplined : IsDisciplined outside) (rec : Rec W dict) (keeping : IsKeeping rec) where
  run_file-Lowers :
      (file : Str) (list : List Value) (flags : Flags)
      → Lowers (run_file dict outside rec file list flags)
  run_file-Lowers file list flags =
      then-Lowers (outside.forkexec rec file list flags.inchild) (finish dict outside rec flags)
        (disciplined.forks rec keeping file list flags.inchild)
        (finish-Lowers outside disciplined rec keeping flags)

  search_with-Keeps : (t : Value) (fn : List Value) → Keeps true (search_with dict outside rec t fn)
  unfolding IsRaw
  search_with-Keeps t [] s n = ends_raw refl tt (Held-refl s)
  search_with-Keeps t (f ∷ fs) s n =
      weaken true (rec.eval ((f ∷ fs) ++ (t ∷ [])) none no_flags)
        (keeping.eval_keeps ((f ∷ fs) ++ (t ∷ [])) none no_flags) s n

  pathsearch-Keeps : (t : Value) → Keeps true (pathsearch dict outside rec t)
  unfolding pathsearch
  pathsearch-Keeps t =
      bind true (varlookup dict outside (codes "fn-%pathsearch") none)
        (search_with dict outside rec t) (varlookup-Keeps outside (codes "fn-%pathsearch") none)
        (search_with-Keeps t)

  run_found-Lowers :
      (cp : Option (Tree × Ref)) (f t : Value) (funcname : Option Str) (args : List Value) (b : Ref)
      (flags : Flags)
      → Lowers (run_found dict outside rec cp f t funcname args b flags)
  run_found-Lowers none f t funcname args b flags =
      run_file-Lowers (getstr outside.unparse f) (t ∷ args) flags
  run_found-Lowers (some c) f t funcname args b flags =
      keeping.restart_keeps funcname (f ∷ args) b flags

  found_command-Lowers :
      (t : Value) (funcname : Option Str) (fn args : List Value) (b : Ref) (flags : Flags)
      → Lowers (found_command dict outside rec t funcname fn args b flags)
  unfolding found_command
  found_command-Lowers t funcname [] args b flags = keeping.restart_keeps funcname args b flags
  found_command-Lowers t funcname (f ∷ []) args b flags =
      then-Lowers (throwing dict outside rec (getclosure dict outside rec f)) _
        (thrown-Keeps outside disciplined rec keeping (getclosure dict outside rec f) (
          weaken true (getclosure dict outside rec f)
            (getclosure-Keeps outside disciplined rec keeping f)))
        (λ cp. run_found-Lowers cp f t funcname args b flags)
  found_command-Lowers t funcname (f ∷ g ∷ fs) args b flags =
      keeping.restart_keeps funcname ((f ∷ g ∷ fs) ++ args) b flags

  run_absolute-Lowers :
      (name : Str) (list : List Value) (flags : Flags) (error : Option Str)
      → Lowers (run_absolute dict outside rec name list flags error)
  unfolding IsRaw IsNested lowered
  run_absolute-Lowers name list flags none s n = run_file-Lowers name list flags s n
  run_absolute-Lowers name list flags (some error) s n =
      failing-Ends outside rec keeping false (Failure.not_executable name error) (lowered s) s tt
        (lowered-Held s) n

  call_command-Lowers :
      (t : Value) (funcname : Option Str) (args : List Value) (b : Ref) (flags : Flags)
      → Lowers (call_command dict outside rec t funcname args b flags)
  unfolding call_command
  call_command-Lowers t funcname args b flags s n =
      let name = getstr outside.unparse t in
      if_split (Ends false (lowered s)) (isabsolute name)
        (run_absolute dict outside rec name (t ∷ args) flags
          (outside.checkexecutable name s.rest.world) s)
        _
        (λ h.
          run_absolute-Lowers name (t ∷ args) flags (outside.checkexecutable name s.rest.world) s n)
        (λ h.
          then-Lowers (throwing dict outside rec (pathsearch dict outside rec t)) _
            (thrown-Keeps outside disciplined rec keeping (pathsearch dict outside rec t)
              (pathsearch-Keeps t))
            (λ fn. found_command-Lowers t funcname fn args b flags) s n)

  call_function-Lowers :
      (fn : List Value) (t : Value) (funcname : Option Str) (args : List Value) (b : Ref)
      (flags : Flags)
      → Lowers (call_function dict outside rec fn t funcname args b flags)
  call_function-Lowers [] t funcname args b flags s n =
      call_command-Lowers t funcname args b flags s n
  call_function-Lowers (f ∷ fs) t funcname args b flags s n =
      keeping.restart_keeps (some (getstr outside.unparse t)) ((f ∷ fs) ++ args) b flags s n

  call_term-Lowers :
      (cp : Option (Tree × Ref)) (t : Value) (funcname : Option Str) (args : List Value) (b : Ref)
      (flags : Flags)
      → Lowers (call_term dict outside rec cp t funcname args b flags)
  unfolding call_name
  call_term-Lowers none t funcname args b flags s n =
      call_function-Lowers
        (lookup_function dict outside (codes "fn-") (getstr outside.unparse t) b s) t funcname args
        b flags s n
  call_term-Lowers (some (tree, cb)) t funcname args b flags s n =
      call_closure-Lowers outside disciplined rec keeping tree cb funcname args b flags s n

  pub restart_step-Lowers :
      (funcname : Option Str) (list : List Value) (b : Ref) (flags : Flags)
      → Lowers (restart_step dict outside rec funcname list b flags)
  unfolding restart_step lowered
  restart_step-Lowers funcname [] b flags s n =
      ends_value (record { pushes = refl; links = refl; depth = refl })
  restart_step-Lowers funcname (t ∷ args) b flags s n =
      then-Lowers (throwing dict outside rec (getclosure dict outside rec t)) _
        (thrown-Keeps outside disciplined rec keeping (getclosure dict outside rec t) (
          weaken true (getclosure dict outside rec t)
            (getclosure-Keeps outside disciplined rec keeping t)))
        (λ cp. call_term-Lowers cp t funcname args b flags) s n

  pub eval_step-Keeps :
      (list : List Value) (b : Ref) (flags : Flags)
      → Keeps false (eval_step dict outside rec list b flags)
  unfolding eval_step IsRaw IsNested lowered
  eval_step-Keeps list b flags s n =
      if_split (Ends false s) (leb (outside.maxevaldepth s.rest.world) (s.rest.evaldepth + 1))
        (throwing dict outside rec (λ u. (Outcome.failed Failure.too_deep, u)) t)
        (rec.restart none list b flags t)
        (λ h.
          failing-Ends outside rec keeping false Failure.too_deep s t tt
            (record { more = whole; links = refl }) n)
        (λ h.
          from_Same false s (lowered t) (rec.restart none list b flags t)
            (record { pushes = refl; links = refl; depth = back s.rest.evaldepth })
            (keeping.restart_keeps none list b flags t n))
    where
      t : Sh W dict
      t = set_depth dict outside rec (s.rest.evaldepth + 1) s

      back : (d : ℕ) → (d + 1) - 1 ≡ d
      back d = omega arith
