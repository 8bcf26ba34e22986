-- ===== src/Eval/Tests.antt =====
-- Runs of the evaluator, and the theorems at concrete inputs.
use desh.Common.{
  ◌++◌, ℕ, ◌+◌, true, false, Option, none, some, List, [], ◌∷◌, ◌≡◌, inr, refl, Str, codes, streq,
  if◌then◌else◌, if_split,
}
use desh.Glom.Terms.{ℤ, NodeKind, Tree, Term, Failure, Outcome}
use desh.Glom.Walk.{Call, after}
use desh.Var.Dictionary.{Dictionary}
use desh.Var.State.{Var, Push, validatevar, isexported}
use desh.Eval.State.{Ref, Value, Handler, Flags, no_flags, Sh, Rec, Outside}
use desh.Eval.Throw.{throwing, catching, throw_exception, fail_in, catch_named}
use desh.Glom.Concat.{getstr}
use desh.Var.Assign.{varpush, varpop}
use desh.Eval.For.{for_defns, for_rounds, forloop, only_exit, total}
use desh.Eval.Let.{defns, ltrue}
use desh.Eval.Run.{run}
use desh.Eval.Ends.{whole, Ends, Keeps, IsNested, Nested, give-Keeps}
use desh.Eval.Throws.{IsKeeping, throw_exception-Keeps}
use desh.Eval.Calls.{IsDisciplined}
use desh.Eval.Settles.{run-Ends}
use desh.Eval.Bindings.{meaning, vardef}
use desh.Eval.Defines.{vardef-Defines}
use desh.Var.Scope.{NoSettor}
use desh.Eval.Rounds.{forloop_enough}

-- A dictionary as a function.
abbrev dictionary : Dictionary (Var Value)
dictionary = record {
  D = Str → Option (Var Value);
  get = λ d k. d k;
  get2 = λ d a b. d (a ++ b);
  put = λ d k v j. if streq j k then v else d j;
  get_put = λ d k v j. refl;
  get2_get = λ d a b. refl;
}

-- Nothing is parsed, expanded or found, and a primitive returns its arguments.
abbrev quiet : Outside ℕ dictionary
quiet = record {
  memory = record {
    behind_raw = λ k. 0;
    behind_quoted = λ k. 0;
    quoted_at = λ k. false;
    unquoted_at = λ k. false;
  };
  unparse = λ t b. codes "closure";
  atoi = λ s. ℤ.pos 0;
  strtol = λ s. (ℤ.pos 0, s);
  counting = λ s. ℤ.pos 1;
  isprint = λ c. true;
  maxevaldepth = λ w. 100;
  pending = λ w. (none, w);
  checkexecutable = λ name w. none;
  parse_closure = λ rec s st. (Outcome.value none, st);
  prim = λ rec w args b flags st. (Outcome.value args, st);
  glob = λ rec list quote st. (Outcome.value list, st);
  forkexec = λ rec file list inchild st. (Outcome.value list, st);
}

-- `$&throw` throws its arguments.
abbrev throwing_prim :
    Rec ℕ dictionary → Str → List Value → Ref → Flags → Call (Sh ℕ dictionary) (List Value)
throwing_prim rec w args b flags st =
    if streq w (codes "throw")
    then throw_exception dictionary quiet rec args st
    else (Outcome.value args, st)

abbrev outside : Outside ℕ dictionary
outside = record quiet { prim = throwing_prim }

outside-IsDisciplined : IsDisciplined outside
outside-IsDisciplined = record {
  parses = λ rec keeping s. give-Keeps false none;
  prims = λ rec keeping w args b flags. prims rec keeping w args b flags;
  globs = λ rec keeping list quote. give-Keeps false list;
  forks = λ rec keeping file list inchild. give-Keeps false list;
}
  where
    prims :
        (rec : Rec ℕ dictionary)
        → IsKeeping rec
        → (w : Str) (args : List Value) (b : Ref) (flags : Flags)
        → Keeps false (throwing_prim rec w args b flags)
    prims rec keeping w args b flags s n =
        if_split (Ends false s) (streq w (codes "throw"))
          (throw_exception dictionary quiet rec args s) (Outcome.value args, s)
          (λ h. throw_exception-Keeps quiet rec keeping false args s n)
          (λ h. give-Keeps false args s n)

abbrev start : Sh ℕ dictionary
start = record {
  vars = λ k. none;
  noexport = none;
  isdirty = false;
  pushlist = [];
  rest = record { bindings = []; handlers = []; exception = []; evaldepth = 0; world = 0 };
}

abbrev word_list : List Str → Tree
word_list [] = Tree.null
word_list (w ∷ ws) = Tree.list (Tree.word w) (word_list ws)

abbrev definition : Str → Tree → Tree
definition name values =
    Tree.list (Tree.other NodeKind.assign_node (Tree.word name) values) Tree.null

-- `for (i = a b) local (x = $i) $&throw break $x c`
abbrev loop : Tree
loop =
    Tree.other NodeKind.for_node (definition (codes "i") (word_list (codes "a" ∷ codes "b" ∷ []))) (
      Tree.other NodeKind.local_node (definition (codes "x") (Tree.var (Tree.word (codes "i")))) (
        Tree.list (Tree.prim (codes "throw")) (
          Tree.list (Tree.word (codes "break"))
            (Tree.list (Tree.var (Tree.word (codes "x"))) (word_list (codes "c" ∷ []))))))

abbrev seen :
    Outcome (List Value) × Sh ℕ dictionary
    → Outcome (List Value) × List (Push Value) × List Handler × ℕ
seen (o, st) = (o, st.pushlist, st.rest.handlers, st.rest.evaldepth)

loop_breaks :
    seen ((run dictionary outside 5).walk loop none no_flags start)
    ≡ (Outcome.value (Term.text (codes "a") ∷ Term.text (codes "c") ∷ []), [], [], 0)
unfolding run fail_in validatevar getstr varpush isexported varpop catch_named
loop_breaks = refl

-- A handler outside, and `$&throw error x`.
abbrev handled : Sh ℕ dictionary
handled = record start {
  rest = record start.rest { handlers = record { pushlist = []; evaldepth = 0 } ∷ [] };
}

abbrev throws : List Value
throws =
    Term.closure (Tree.prim (codes "throw")) none
    ∷ Term.text (codes "error")
    ∷ Term.text (codes "x")
    ∷ []

jumps :
    seen ((run dictionary outside 5).eval throws none no_flags handled)
    ≡ (Outcome.failed Failure.jump, [], [], 0)
unfolding run fail_in
jumps = refl

run-Ends_example :
    Ends false handled ((run dictionary outside 5).eval throws none no_flags handled)
    × Ends false handled ((run dictionary outside 5).walk loop none no_flags handled)
unfolding IsNested Nested
run-Ends_example =
    run-Ends outside outside-IsDisciplined 5 throws loop none no_flags handled (whole, tt)

-- A loop over two letters.
abbrev letters : Tree
letters = definition (codes "i") (word_list (codes "a" ∷ codes "b" ∷ []))

forloop_enough_example :
    after
      (for_defns dictionary outside (run dictionary outside 5) (defns letters) none start)
      (λ groups.
        catching dictionary outside
          (run dictionary outside 5)
          (throwing dictionary outside (run dictionary outside 5) (
            for_rounds dictionary outside
              (run dictionary outside 5)
              (total groups + 1 + 3)
              groups
              (Tree.prim (codes "c"))
              none
              (only_exit dictionary outside (run dictionary outside 5) no_flags)
              ltrue))
          (catch_named dictionary outside (run dictionary outside 5) (codes "break")))
    ≡ forloop dictionary outside
        (run dictionary outside 5)
        letters
        (Tree.prim (codes "c"))
        none
        no_flags
        start
forloop_enough_example =
    forloop_enough outside (run dictionary outside 5) 3 letters (Tree.prim (codes "c")) none
      no_flags start

abbrev no_eval : List Value → Call (Sh ℕ dictionary) (List Value)
no_eval list st = (Outcome.null_read, st)

-- `y` is bound twice, the older binding behind the newer one.
abbrev bound : Sh ℕ dictionary
bound = record start {
  rest = record start.rest {
    bindings =
        record { name = codes "y"; defn = throws; next = some 0 }
        ∷ record { name = codes "y"; defn = []; next = none }
        ∷ [];
  };
}

vardef-Defines_example :
    (st' : Sh ℕ dictionary) × (vardef dictionary outside no_eval (codes "y") (some 1) [] bound
      ≡ (Outcome.value tt, st'))
    × ((j : Str)
        → meaning dictionary outside j (some 1) st'
          ≡ (if streq j (codes "y") then [] else meaning dictionary outside j (some 1) bound))
unfolding validatevar NoSettor
vardef-Defines_example =
    vardef-Defines outside no_eval (codes "y") (some 1) [] bound refl (inr refl)
