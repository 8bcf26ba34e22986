-- ===== src/Eval/State.antt =====
-- The state of the evaluator (src/include/desh/es.h), and what it uses of the rest of the shell.
use desh.Common.{ℕ, Bool, true, false, Option, none, some, List, Str}
use desh.Match.{Memory, Quote}
use desh.Glom.Terms.{ℤ, Tree, Term}
use desh.Glom.Walk.{Call}
use desh.Var.Dictionary.{Dictionary}
use desh.Var.State.{Var, Push, Vars}

-- A pointer to a `Binding`: NULL, or the number of the binding, counted from the oldest one.
abbrev pub Ref : Type 0
Ref = Option ℕ

abbrev pub Value : Type 0
Value = Term Ref

pub record Binding : Type 0 where
  pub name : Str
  pub defn : List Value
  pub next : Ref

-- A handler; `up` is the rest of the list of handlers.
pub record Handler : Type 0 where
  pub pushlist : List (Push Value)
  pub evaldepth : ℕ

-- EVAL_INCHILD and EVAL_EXITONFALSE
pub record Flags : Type 0 where
  pub inchild : Bool
  pub exitonfalse : Bool

abbrev pub no_flags : Flags
no_flags = record { inchild = false; exitonfalse = false }

-- All bindings, the newest first; the handlers from `tophandler` on; the last exception;
-- `evaldepth`; and what the other parts of the shell and the operating system keep.
pub record Extras (W : Type 0) : Type 0 where
  pub bindings : List Binding
  pub handlers : List Handler
  pub exception : List Value
  pub evaldepth : ℕ
  pub world : W

-- The term is a closure with a binding, the test of `hasbindings`.
abbrev pub has_binding : Value → Bool
has_binding (Term.closure t (some (some n))) = true
has_binding (Term.closure t (some none)) = false
has_binding (Term.closure t none) = false
has_binding (Term.text s) = false

module _ (W : Type 0) (dict : Dictionary (Var Value)) where
  -- The state of the shell.
  abbrev pub Sh : Type 0
  Sh = Vars Value dict (Extras W)

  -- The functions that call each other: `eval`, `eval` from its label `restart` on, with
  -- `funcname`, and `walk`.
  pub record Rec : Type 0 where
    pub eval : List Value → Ref → Flags → Call Sh (List Value)
    pub restart : Option Str → List Value → Ref → Flags → Call Sh (List Value)
    pub walk : Tree → Ref → Flags → Call Sh (List Value)

  -- `parse_closure` is `parsestring` with `extractbindings`; `pending` takes the exception of a
  -- pending signal; `counting` is `strtol` with its result as an int.
  pub record Outside : Type 0 where
    pub memory : Memory
    pub unparse : Tree → Option Ref → Str
    pub atoi : Str → ℤ
    pub strtol : Str → ℤ × Str
    pub counting : Str → ℤ
    pub isprint : ℕ → Bool
    pub maxevaldepth : W → ℕ
    pub pending : W → Option (List Value) × W
    pub checkexecutable : Str → W → Option Str
    pub parse_closure : Rec → Str → Call Sh (Option (Tree × Ref))
    pub prim : Rec → Str → List Value → Ref → Flags → Call Sh (List Value)
    pub glob : Rec → List Value → List Quote → Call Sh (List Value)
    pub forkexec : Rec → Str → List Value → Bool → Call Sh (List Value)
