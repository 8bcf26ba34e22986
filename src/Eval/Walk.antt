-- ===== src/Eval/Walk.antt =====
-- src/eval.c: matches, and `walk`.
use desh.Common.{true, List, [], ◌∷◌, if◌then◌else◌, Str, map}
use desh.Match.{Quote}
use desh.Match.Words.{Pattern, listmatch}
use desh.Match.Extract.{Extracted, extractmatches}
use desh.Glom.Terms.{NodeKind, Tree, Term, Failure, Outcome}
use desh.Glom.Walk.{Call, after, glom2, glom}
use desh.Var.Dictionary.{Dictionary}
use desh.Var.State.{Var}
use desh.Eval.State.{Ref, Value, Flags, Sh, Rec, Outside}
use desh.Eval.Throw.{throwing, sigchk}
use desh.Eval.Let.{defns, ltrue, lfalse, shell, words, assign_vars, letbindings, local}
use desh.Eval.For.{forloop}

abbrev pub patterns : List Str → List Quote → List Pattern
patterns [] quotes = []
patterns (w ∷ ws) [] = []
patterns (w ∷ ws) (q ∷ quotes) = (w, q) ∷ patterns ws quotes

module _ {W : Type 0} (dict : Dictionary (Var Value)) (outside : Outside W dict)
    (rec : Rec W dict) where
  -- The subject, and the pattern with its quoting.
  abbrev pub subject_and_pattern :
      {A : Type 0}
      → Tree
      → Tree
      → Ref
      → (List Str → List Pattern → Call (Sh W dict) A)
      → Call (Sh W dict) A
  subject_and_pattern subjectform patternform bp next st =
      after (glom (shell dict outside rec) subjectform bp true st) (λ subject st'.
        after (glom2 (shell dict outside rec) patternform bp st') (λ (pattern, quote).
          next (words dict outside rec subject) (patterns (words dict outside rec pattern) quote)))

  unfoldable pub matchpattern : Tree → Tree → Ref → Call (Sh W dict) (List Value)
  unfolding glom glom2 listmatch
  matchpattern subjectform patternform bp =
      subject_and_pattern subjectform patternform bp (λ subject pattern st. (
        Outcome.value (if listmatch ⦃mem = outside.memory⦄ subject pattern then ltrue else lfalse),
        st,
      ))

  abbrev pub extracted : Extracted → Call (Sh W dict) (List Value)
  extracted (Extracted.found ws) st = (Outcome.value (map Term.text ws), st)
  extracted Extracted.assert_failed st = (Outcome.null_read, st)
  extracted Extracted.out_of_fuel st = (Outcome.failed Failure.out_of_fuel, st)

  unfoldable pub extractpattern : Tree → Tree → Ref → Call (Sh W dict) (List Value)
  unfolding glom glom2 extractmatches
  extractpattern subjectform patternform bp =
      subject_and_pattern subjectform patternform bp
        (λ subject pattern. extracted (extractmatches ⦃mem = outside.memory⦄ subject pattern))

  -- The kinds of words.
  abbrev pub walk_word : Tree → Ref → Flags → Call (Sh W dict) (List Value)
  walk_word t binding flags st =
      after (throwing dict outside rec (glom (shell dict outside rec) t binding true) st)
        (λ list. rec.eval list binding flags)

  -- `walk` from the label `top` on; `null_read` is also the end by `panic`.
  unfoldable pub walk_top : Tree → Ref → Flags → Call (Sh W dict) (List Value)
  unfolding glom assign_vars letbindings local forloop matchpattern extractpattern defns
  walk_top Tree.null b flags = λ st. (Outcome.value ltrue, st)
  walk_top (Tree.word w) b flags = walk_word (Tree.word w) b flags
  walk_top (Tree.qword w) b flags = walk_word (Tree.qword w) b flags
  walk_top (Tree.prim w) b flags = walk_word (Tree.prim w) b flags
  walk_top (Tree.thunk t) b flags = walk_word (Tree.thunk t) b flags
  walk_top (Tree.var t) b flags = walk_word (Tree.var t) b flags
  walk_top (Tree.call t) b flags = walk_word (Tree.call t) b flags
  walk_top (Tree.lambda t u) b flags = walk_word (Tree.lambda t u) b flags
  walk_top (Tree.varsub t u) b flags = walk_word (Tree.varsub t u) b flags
  walk_top (Tree.list t u) b flags = walk_word (Tree.list t u) b flags
  walk_top (Tree.concat t u) b flags = walk_word (Tree.concat t u) b flags
  walk_top (Tree.other NodeKind.assign_node t u) b flags =
      throwing dict outside rec (assign_vars dict outside rec t u b)
  walk_top (Tree.other NodeKind.let_node t u) b flags = λ st.
      after (throwing dict outside rec (letbindings dict outside rec (defns t) b b) st)
        (λ b'. walk_top u b' flags)
  walk_top (Tree.other NodeKind.closure_node t u) b flags = λ st.
      after (throwing dict outside rec (letbindings dict outside rec (defns t) b b) st)
        (λ b'. walk_top u b' flags)
  walk_top (Tree.other NodeKind.local_node t u) b flags =
      throwing dict outside rec (local dict outside rec t u b flags)
  walk_top (Tree.other NodeKind.for_node t u) b flags =
      throwing dict outside rec (forloop dict outside rec t u b flags)
  walk_top (Tree.other NodeKind.match_node t u) b flags =
      throwing dict outside rec (matchpattern t u b)
  walk_top (Tree.other NodeKind.extract_node t u) b flags =
      throwing dict outside rec (extractpattern t u b)
  walk_top (Tree.other NodeKind.redir_node t u) b flags = λ st. (Outcome.null_read, st)

  unfoldable pub walk_step : Tree → Ref → Flags → Call (Sh W dict) (List Value)
  unfolding walk_top sigchk
  walk_step t b flags st = after (sigchk dict outside rec st) (λ u. walk_top t b flags)
