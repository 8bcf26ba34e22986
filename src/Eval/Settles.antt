-- ===== src/Eval/Settles.antt =====
-- src/eval.c: the scope of the evaluator as a whole.
use desh.Common.{ℕ, zero, suc, false, List}
use desh.Glom.Terms.{Tree}
use desh.Var.Dictionary.{Dictionary}
use desh.Var.State.{Var}
use desh.Eval.State.{Ref, Value, Flags, Sh, Outside}
use desh.Eval.Run.{run}
use desh.Eval.Ends.{Ends, ends_fuel, IsNested}
use desh.Eval.Throws.{IsKeeping}
use desh.Eval.Walks.{walk_step-Keeps}
use desh.Eval.Calls.{IsDisciplined}
use desh.Eval.Commands.{restart_step-Lowers, eval_step-Keeps}

module _ {W : Type 0} {dict : Dictionary (Var Value)} (outside : Outside W dict)
    (disciplined : IsDisciplined outside) where
  run-IsKeeping : (n : ℕ) → IsKeeping (run dict outside n)
  unfolding run
  run-IsKeeping zero = record {
    eval_keeps = λ list b flags s n. ends_fuel;
    walk_keeps = λ t b flags s n. ends_fuel;
    restart_keeps = λ funcname list b flags s n. ends_fuel;
  }
  run-IsKeeping (suc n) =
      let k = run-IsKeeping n in
      record {
        eval_keeps = eval_step-Keeps outside disciplined (run dict outside n) k;
        walk_keeps =
            walk_step-Keeps outside (run dict outside n) k
              (disciplined.globs (run dict outside n) k);
        restart_keeps = restart_step-Lowers outside disciplined (run dict outside n) k;
      }

  -- From a state whose handlers have the pushes that they had, `eval` and `walk`, on any fuel, end in one of four ways: with a value, and then the list of pushes, the handlers and the depth are as before; by a jump to one of the handlers, and then that handler and those inside it are popped, and the pushes and the depth are those that it noted; with the end of the process or of the fuel; or at a NULL pointer or an assertion. No call of `fail` is left. The parser, the primitives, directory expansion and the start of programs are taken to do so where the evaluator that they call does.
  pub run-Ends :
      (n : ℕ) (list : List Value) (t : Tree) (b : Ref) (flags : Flags) (s : Sh W dict)
      → IsNested s
      → Ends false s ((run dict outside n).eval list b flags s)
        × Ends false s ((run dict outside n).walk t b flags s)
  run-Ends n list t b flags s nested = (
    (run-IsKeeping n).eval_keeps list b flags s nested,
    (run-IsKeeping n).walk_keeps t b flags s nested,
  )
