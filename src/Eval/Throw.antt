-- ===== src/Eval/Throw.antt =====
-- src/except.c: exceptions and their handlers.
use desh.Common.{
  ℕ, Bool, false, Option, none, some, List, [], ◌∷◌, ◌++◌, ◌==◌, if◌then◌else◌, Str, codes, length,
  ◌+◌, streq,
}
use desh.Conv.Quote.{sconv}
use desh.Glom.Terms.{NodeKind, Term, Failure, Outcome}
use desh.Glom.Walk.{Call, after}
use desh.Var.Dictionary.{Dictionary}
use desh.Var.State.{Var, Push}
use desh.Var.Assign.{varpop}
use desh.Eval.State.{Value, Handler, Sh, Rec, Outside, has_binding, no_flags}

-- `%d` of a `NodeKind`
abbrev pub kind_number : NodeKind → Str
kind_number NodeKind.assign_node = codes "0"
kind_number NodeKind.closure_node = codes "2"
kind_number NodeKind.for_node = codes "4"
kind_number NodeKind.let_node = codes "6"
kind_number NodeKind.local_node = codes "8"
kind_number NodeKind.match_node = codes "9"
kind_number NodeKind.extract_node = codes "10"
kind_number NodeKind.redir_node = codes "17"

-- The arguments of the calls of `fail`; the others are no calls of it.
unfoldable pub reason : (ℕ → Bool) → Failure → Option (Str × Str)
unfolding sconv
reason isprint (Failure.bad_subscript s) = some (codes "es:subscript", codes "bad subscript: " ++ s)
reason isprint Failure.null_name = some (codes "desh:glom", codes "null variable name in subscript")
reason isprint Failure.multi_word_name =
    some (codes "desh:glom", codes "multi-word variable name in subscript")
reason isprint (Failure.bad_node k) =
    some (codes "desh:glom", codes "glom1: bad node kind " ++ kind_number k)
reason isprint Failure.zero_length_name = some (codes "desh:var", codes "zero-length variable name")
reason isprint (Failure.illegal_name s) =
    some (codes "desh:var", codes "illegal variable name: " ++ sconv isprint false s)
reason isprint (Failure.null_variable from) = some (from, codes "null variable name")
reason isprint Failure.too_deep = some (codes "es:eval", codes "max-eval-depth exceeded")
reason isprint (Failure.no_pathsearch s) =
    some (codes "es:pathsearch", s ++ codes ": fn %pathsearch undefined")
reason isprint (Failure.not_executable name error) =
    some (codes "$&whatis", name ++ (codes ": " ++ error))
reason isprint Failure.jump = none
reason isprint Failure.out_of_fuel = none
reason isprint (Failure.exit n) = none

module _ {W : Type 0} (dict : Dictionary (Var Value)) (outside : Outside W dict)
    (rec : Rec W dict) where
  -- `eval(…, NULL, 0)`
  abbrev pub eval_alone : List Value → Call (Sh W dict) (List Value)
  eval_alone list = rec.eval list none no_flags

  abbrev pub pop : Call (Sh W dict) Unit
  pop = varpop dict has_binding Term.text eval_alone

  -- The while loop of `throw_exception`: `ps` is the list of pushes. That is the handler's when it
  -- is as long.
  unfoldable pub unwind : List (Push Value) → Handler → Call (Sh W dict) Unit
  unwind [] h st =
      if length st.pushlist == length h.pushlist
      then (Outcome.value tt, st)
      else (Outcome.null_read, st)
  unwind (p ∷ ps) h st =
      if length st.pushlist == length h.pushlist
      then (Outcome.value tt, st)
      else after (pop st) (λ u. unwind ps h)

  abbrev pub set_handlers : List Handler → Sh W dict → Sh W dict
  set_handlers hs st = record st { rest = record st.rest { handlers = hs } }

  -- The end of `throw_exception`: `longjmp`.
  abbrev pub land : {A : Type 0} → Handler → List Value → Sh W dict → Outcome A × Sh W dict
  land h e st = (
    Outcome.failed Failure.jump,
    record st { rest = record st.rest { evaldepth = h.evaldepth; exception = e } },
  )

  abbrev pub throw_to : {A : Type 0} → List Handler → List Value → Call (Sh W dict) A
  throw_to [] e st = (Outcome.null_read, st)
  throw_to (h ∷ up) e st = after (unwind st.pushlist h (set_handlers up st)) (λ u st'. land h e st')

  -- The assertion that `e` is not NULL comes first.
  unfoldable pub throw_exception : {A : Type 0} → List Value → Call (Sh W dict) A
  unfolding unwind
  throw_exception [] st = (Outcome.null_read, st)
  throw_exception (t ∷ e) st = throw_to st.rest.handlers (t ∷ e) st

  -- What `fail` throws.
  abbrev pub error_list : Str × Str → List Value
  error_list (from, message) = Term.text (codes "error") ∷ Term.text from ∷ Term.text message ∷ []

  abbrev pub thrown : {A : Type 0} → Failure → Option (Str × Str) → Call (Sh W dict) A
  thrown f none st = (Outcome.failed f, st)
  thrown f (some why) st = throw_exception (error_list why) st

  -- The calls of `fail`, in the state in which they are made.
  unfoldable pub fail_in : {A : Type 0} → Outcome A × Sh W dict → Outcome A × Sh W dict
  unfolding throw_exception reason
  fail_in (Outcome.value a, st) = (Outcome.value a, st)
  fail_in (Outcome.failed f, st) = thrown f (reason outside.isprint f) st
  fail_in (Outcome.null_read, st) = (Outcome.null_read, st)

  abbrev pub throwing : {A : Type 0} → Call (Sh W dict) A → Call (Sh W dict) A
  throwing call st = fail_in (call st)

  -- The end of a handler's body, where `up` are the handlers outside it: `pophandler`, or the branch
  -- behind CatchException if the jump was to this handler.
  unfoldable pub leave_handler :
      List Handler
      → (List Value → Call (Sh W dict) (List Value))
      → Outcome (List Value) × Sh W dict
      → Outcome (List Value) × Sh W dict
  leave_handler up catch (Outcome.value a, st) =
      if length st.rest.handlers == length up + 1
      then (Outcome.value a, set_handlers up st)
      else (Outcome.null_read, st)
  leave_handler up catch (Outcome.failed Failure.jump, st) =
      if length st.rest.handlers == length up
      then catch st.rest.exception st
      else (Outcome.failed Failure.jump, st)
  leave_handler up catch (Outcome.failed f, st) = (Outcome.failed f, st)
  leave_handler up catch (Outcome.null_read, st) = (Outcome.null_read, st)

  -- ExceptionHandler
  abbrev pub enter_handler : Sh W dict → Sh W dict
  enter_handler st =
      let h : Handler = record { pushlist = st.pushlist; evaldepth = st.rest.evaldepth } in
      set_handlers (h ∷ st.rest.handlers) st

  unfoldable pub catching :
      Call (Sh W dict) (List Value)
      → (List Value → Call (Sh W dict) (List Value))
      → Call (Sh W dict) (List Value)
  unfolding leave_handler
  catching body catch st = leave_handler st.rest.handlers catch (body (enter_handler st))

  -- `termeq`
  abbrev pub termeq : Value → Str → Bool
  termeq (Term.text s) t = streq s t
  termeq (Term.closure c b) t = false

  -- The branch that ends with the rest of an exception of this name, and throws the others on.
  unfoldable pub catch_named : Str → List Value → Call (Sh W dict) (List Value)
  unfolding throw_exception
  catch_named name [] st = (Outcome.null_read, st)
  catch_named name (t ∷ e) st =
      if termeq t name then (Outcome.value e, st) else throw_exception (t ∷ e) st

  abbrev pub signalled : Option (List Value) → Call (Sh W dict) Unit
  signalled none st = (Outcome.value tt, st)
  signalled (some e) st = throw_exception e st

  -- `sigchk`, but that a signal in a child process ends it.
  unfoldable pub sigchk : Call (Sh W dict) Unit
  unfolding throw_exception
  sigchk st =
      let (e, w) = outside.pending st.rest.world in
      signalled e (record st { rest = record st.rest { world = w } })
