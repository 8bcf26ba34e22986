-- ===== src/Eval/Walks.antt =====
-- src/eval.c: the scopes of `for`, of matches and of `walk`.
use desh.Common.{
  ℕ, zero, suc, ◌+◌, true, false, List, [], ◌∷◌, ◌++◌, refl, if_split, Str, codes, map,
  if◌then◌else◌,
}
use desh.Match.{Quote}
use desh.Match.Words.{Pattern, listmatch}
use desh.Match.Extract.{Extracted, extractmatches}
use desh.Glom.Terms.{NodeKind, Tree, Outcome}
use desh.Glom.Walk.{Call, after, glom, glom2}
use desh.Var.Dictionary.{Dictionary}
use desh.Var.State.{Var, validatevar}
use desh.Var.Assign.{name_failure}
use desh.Eval.State.{Ref, Value, Flags, Sh, Rec, Outside}
use desh.Eval.Bindings.{mkbindings}
use desh.Eval.Throw.{throwing, catch_named, sigchk}
use desh.Eval.Let.{Defn, defns, ltrue, lfalse, shell, words, assign_vars, letbindings, local}
use desh.Eval.For.{
  Group, deal_all, dealt, all_null, total, validate_all, for_defn, for_defns, for_rounds, only_exit,
  forloop,
}
use desh.Eval.Walk.{
  patterns, subject_and_pattern, matchpattern, extracted, extractpattern, walk_word, walk_top,
  walk_step,
}
use desh.Eval.Ends.{
  Ends, ends_value, ends_raw, ends_null, ends_fuel, Keeps, Same-refl, Held-refl, bind, give-Keeps,
  null-Keeps, weaken,
}
use desh.Eval.Unwinds.{name_failure-IsRaw}
use desh.Eval.Throws.{IsKeeping, throwing-Keeps}
use desh.Eval.Catches.{catching-Keeps, catch_named-Keeps, sigchk-Keeps}
use desh.Eval.Words.{mkbindings-Keeps}
use desh.Eval.Scopes.{
  word-Keeps, pattern-Keeps, with_vars-Keeps, assign_vars-Keeps, letbindings-Keeps, local-Keeps,
}

module _ {W : Type 0} {dict : Dictionary (Var Value)} (outside : Outside W dict) (rec : Rec W dict)
    (keeping : IsKeeping rec)
    (glob : (list : List Value) (quote : List Quote)
      → Keeps false (outside.glob rec list quote)) where
  validate_all-Keeps : (names : List Str) → Keeps true (validate_all dict outside rec names)
  validate_all-Keeps [] s n = ends_value (Same-refl s)
  validate_all-Keeps (name ∷ names) s n =
      if_split (Ends true s) (validatevar name) (validate_all dict outside rec names s)
        (Outcome.failed (name_failure name), s) (λ h. validate_all-Keeps names s n)
        (λ h. ends_raw refl (name_failure-IsRaw name) (Held-refl s))

  for_defn-Keeps : (d : Defn) (outer : Ref) → Keeps true (for_defn dict outside rec d outer)
  unfolding for_defn
  for_defn-Keeps Defn.absent outer = give-Keeps true []
  for_defn-Keeps Defn.refused outer = null-Keeps true
  for_defn-Keeps (Defn.assigned t u) outer =
      bind true (glom (shell dict outside rec) t outer false) _
        (word-Keeps outside rec keeping glob t outer false)
        (λ vars.
          bind true (glom (shell dict outside rec) u outer true) _
            (word-Keeps outside rec keeping glob u outer true)
            (λ list.
              let names = words dict outside rec vars in
              with_vars-Keeps outside rec keeping glob (codes "es:for") vars _ (
                bind true (validate_all dict outside rec names) _ (validate_all-Keeps names) (λ x.
                  bind true (sigchk dict outside rec)
                    (λ x' s. (Outcome.value ((names, list) ∷ []), s))
                    (sigchk-Keeps outside rec keeping true)
                    (λ x'. give-Keeps true ((names, list) ∷ []))))))

  for_defns-Keeps :
      (ds : List Defn) (outer : Ref) → Keeps true (for_defns dict outside rec ds outer)
  unfolding for_defns
  for_defns-Keeps [] outer = give-Keeps true []
  for_defns-Keeps (d ∷ ds) outer =
      bind true (for_defn dict outside rec d outer) _ (for_defn-Keeps d outer) (λ group.
        bind true (for_defns dict outside rec ds outer)
          (λ groups s. (Outcome.value (group ++ groups), s)) (for_defns-Keeps ds outer)
          (λ groups. give-Keeps true (group ++ groups)))

  for_rounds-Keeps :
      (fuel : ℕ) (groups : List Group) (body : Tree) (outer : Ref) (flags : Flags)
      (result : List Value)
      → Keeps true (for_rounds dict outside rec fuel groups body outer flags result)
  unfolding for_rounds
  for_rounds-Keeps zero groups body outer flags result s n = ends_fuel
  for_rounds-Keeps (suc fuel) groups body outer flags result s n =
      bind true (mkbindings dict outside (deal_all groups) outer) _
        (mkbindings-Keeps outside (deal_all groups) outer)
        (λ bp t m.
          if_split (Ends true t) (all_null groups) (Outcome.value result, t) _
            (λ h. ends_value (Same-refl t))
            (λ h.
              bind true (rec.walk body bp flags) _
                (weaken true (rec.walk body bp flags) (keeping.walk_keeps body bp flags))
                (λ list.
                  bind true (sigchk dict outside rec)
                    (λ x. for_rounds dict outside rec fuel (map dealt groups) body outer flags list)
                    (sigchk-Keeps outside rec keeping true)
                    (λ x. for_rounds-Keeps fuel (map dealt groups) body outer flags list))
                t m))
        s n

  forloop-Keeps :
      (defn body : Tree) (outer : Ref) (flags : Flags)
      → Keeps true (forloop dict outside rec defn body outer flags)
  unfolding forloop
  forloop-Keeps defn body outer flags =
      bind true (for_defns dict outside rec (defns defn) outer) _
        (for_defns-Keeps (defns defn) outer)
        (λ groups.
          let rounds =
            for_rounds dict outside rec (total groups + 1) groups body outer
              (only_exit dict outside rec flags) ltrue in
          catching-Keeps outside rec keeping true (throwing dict outside rec rounds)
            (catch_named dict outside rec (codes "break"))
            (throwing-Keeps outside rec keeping false rounds (
              for_rounds-Keeps (total groups + 1) groups body outer
                (only_exit dict outside rec flags) ltrue))
            (catch_named-Keeps outside rec keeping true (codes "break")))

  subject_and_pattern-Keeps :
      {A : Type 0} (t u : Tree) (b : Ref) (next : List Str → List Pattern → Call (Sh W dict) A)
      → ((ss : List Str) (ps : List Pattern) → Keeps true (next ss ps))
      → Keeps true (subject_and_pattern dict outside rec t u b next)
  subject_and_pattern-Keeps t u b next k =
      bind true (glom (shell dict outside rec) t b true) _
        (word-Keeps outside rec keeping glob t b true)
        (λ subject.
          bind true (glom2 (shell dict outside rec) u b) _
            (pattern-Keeps outside rec keeping glob u b)
            (λ (pattern, quote).
              k (words dict outside rec subject) (patterns (words dict outside rec pattern) quote)))

  extracted-Keeps : (e : Extracted) → Keeps true (extracted dict outside rec e)
  extracted-Keeps (Extracted.found ws) s n = ends_value (Same-refl s)
  extracted-Keeps Extracted.assert_failed s n = ends_null
  extracted-Keeps Extracted.out_of_fuel s n = ends_fuel

  walk_word-Keeps :
      (t : Tree) (b : Ref) (flags : Flags) → Keeps false (walk_word dict outside rec t b flags)
  walk_word-Keeps t b flags =
      bind false (throwing dict outside rec (glom (shell dict outside rec) t b true)) _
        (throwing-Keeps outside rec keeping false (glom (shell dict outside rec) t b true)
          (word-Keeps outside rec keeping glob t b true))
        (λ list. keeping.eval_keeps list b flags)

  thrown-Keeps :
      {A : Type 0} (call : Call (Sh W dict) A)
      → Keeps true call
      → Keeps false (throwing dict outside rec call)
  thrown-Keeps = throwing-Keeps outside rec keeping false

  let-Keeps :
      (t : Tree) (b : Ref) (body : Ref → Call (Sh W dict) (List Value))
      → ((b' : Ref) → Keeps false (body b'))
      → Keeps false (λ s.
        after (throwing dict outside rec (letbindings dict outside rec (defns t) b b) s) body)
  let-Keeps t b body k =
      bind false (throwing dict outside rec (letbindings dict outside rec (defns t) b b)) body
        (thrown-Keeps (letbindings dict outside rec (defns t) b b)
          (letbindings-Keeps outside rec keeping glob (defns t) b b))
        k

  walk_top-Keeps :
      (t : Tree) (b : Ref) (flags : Flags) → Keeps false (walk_top dict outside rec t b flags)
  unfolding walk_top matchpattern extractpattern
  walk_top-Keeps Tree.null b flags = give-Keeps false ltrue
  walk_top-Keeps (Tree.word w) b flags = walk_word-Keeps (Tree.word w) b flags
  walk_top-Keeps (Tree.qword w) b flags = walk_word-Keeps (Tree.qword w) b flags
  walk_top-Keeps (Tree.prim w) b flags = walk_word-Keeps (Tree.prim w) b flags
  walk_top-Keeps (Tree.thunk t) b flags = walk_word-Keeps (Tree.thunk t) b flags
  walk_top-Keeps (Tree.var t) b flags = walk_word-Keeps (Tree.var t) b flags
  walk_top-Keeps (Tree.call t) b flags = walk_word-Keeps (Tree.call t) b flags
  walk_top-Keeps (Tree.lambda t u) b flags = walk_word-Keeps (Tree.lambda t u) b flags
  walk_top-Keeps (Tree.varsub t u) b flags = walk_word-Keeps (Tree.varsub t u) b flags
  walk_top-Keeps (Tree.list t u) b flags = walk_word-Keeps (Tree.list t u) b flags
  walk_top-Keeps (Tree.concat t u) b flags = walk_word-Keeps (Tree.concat t u) b flags
  walk_top-Keeps (Tree.other NodeKind.assign_node t u) b flags =
      thrown-Keeps (assign_vars dict outside rec t u b)
        (assign_vars-Keeps outside rec keeping glob t u b)
  walk_top-Keeps (Tree.other NodeKind.let_node t u) b flags =
      let-Keeps t b (λ b'. walk_top dict outside rec u b' flags) (λ b'. walk_top-Keeps u b' flags)
  walk_top-Keeps (Tree.other NodeKind.closure_node t u) b flags =
      let-Keeps t b (λ b'. walk_top dict outside rec u b' flags) (λ b'. walk_top-Keeps u b' flags)
  walk_top-Keeps (Tree.other NodeKind.local_node t u) b flags =
      thrown-Keeps (local dict outside rec t u b flags)
        (local-Keeps outside rec keeping glob t u b flags)
  walk_top-Keeps (Tree.other NodeKind.for_node t u) b flags =
      thrown-Keeps (forloop dict outside rec t u b flags) (forloop-Keeps t u b flags)
  walk_top-Keeps (Tree.other NodeKind.match_node t u) b flags =
      thrown-Keeps (matchpattern dict outside rec t u b) (
        subject_and_pattern-Keeps t u b _ (λ subject pattern.
          give-Keeps true
            (if listmatch ⦃mem = outside.memory⦄ subject pattern then ltrue else lfalse)))
  walk_top-Keeps (Tree.other NodeKind.extract_node t u) b flags =
      thrown-Keeps (extractpattern dict outside rec t u b) (
        subject_and_pattern-Keeps t u b _ (λ subject pattern.
          extracted-Keeps (extractmatches ⦃mem = outside.memory⦄ subject pattern)))
  walk_top-Keeps (Tree.other NodeKind.redir_node t u) b flags = null-Keeps false

  pub walk_step-Keeps :
      (t : Tree) (b : Ref) (flags : Flags) → Keeps false (walk_step dict outside rec t b flags)
  unfolding walk_step
  walk_step-Keeps t b flags =
      bind false (sigchk dict outside rec) (λ u. walk_top dict outside rec t b flags)
        (sigchk-Keeps outside rec keeping false) (λ u. walk_top-Keeps t b flags)
