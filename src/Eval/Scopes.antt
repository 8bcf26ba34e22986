-- ===== src/Eval/Scopes.antt =====
-- src/eval.c: the scopes of assignments, `let` and `local`.
use desh.Common.{Bool, true, false, none, List, [], ◌∷◌, refl, Str, codes, reverse}
use desh.Match.{Quote}
use desh.Glom.Terms.{Tree, Term, Outcome}
use desh.Glom.Walk.{Call, after, glom, glom2}
use desh.Var.Dictionary.{Dictionary}
use desh.Var.State.{Var}
use desh.Var.Assign.{varpush}
use desh.Eval.State.{Ref, Value, Flags, no_flags, Sh, Rec, Outside, has_binding}
use desh.Eval.Bindings.{chain, share, mkbindings, vardef_all}
use desh.Eval.Throw.{eval_alone, pop}
use desh.Eval.Let.{
  Defn, defns, shell, words, with_vars, assign_vars, let_defn, letbindings, localbind, local,
}
use desh.Eval.Ends.{
  IsRaw, ends_value, ends_raw, Keeps, Held-refl, Pushed-Held, IsNested-Held, under, bind,
  give-Keeps, null-Keeps, weaken, Pushed-Same,
}
use desh.Eval.Unwinds.{varpush-then}
use desh.Eval.Throws.{IsKeeping, pop-Ends}
use desh.Eval.Words.{glom-Keeps, glom2-Keeps, mkbindings-Keeps, varlookup-Keeps, vardef_all-Keeps}

module _ {W : Type 0} {dict : Dictionary (Var Value)} (outside : Outside W dict) (rec : Rec W dict)
    (keeping : IsKeeping rec)
    (glob : (list : List Value) (quote : List Quote)
      → Keeps false (outside.glob rec list quote)) where
  pub word-Keeps :
      (t : Tree) (b : Ref) (globit : Bool) → Keeps true (glom (shell dict outside rec) t b globit)
  word-Keeps =
      glom-Keeps (shell dict outside rec) (varlookup-Keeps outside)
        (λ t b. weaken true (rec.walk t b no_flags) (keeping.walk_keeps t b no_flags))
        (λ list quote. weaken true (outside.glob rec list quote) (glob list quote))

  pub pattern-Keeps : (t : Tree) (b : Ref) → Keeps true (glom2 (shell dict outside rec) t b)
  pattern-Keeps =
      glom2-Keeps (shell dict outside rec) (varlookup-Keeps outside)
        (λ t b. weaken true (rec.walk t b no_flags) (keeping.walk_keeps t b no_flags))
        (λ list quote. weaken true (outside.glob rec list quote) (glob list quote))

  pub with_vars-Keeps :
      {A : Type 0} (from : Str) (vars : List Value) (next : Call (Sh W dict) A)
      → Keeps true next
      → Keeps true (with_vars dict outside rec from vars next)
  unfolding IsRaw
  with_vars-Keeps from [] next k s n = ends_raw refl tt (Held-refl s)
  with_vars-Keeps from (v ∷ vars) next k s n = k s n

  pub assign_vars-Keeps : (t u : Tree) (b : Ref) → Keeps true (assign_vars dict outside rec t u b)
  unfolding assign_vars
  assign_vars-Keeps t u b =
      bind true (glom (shell dict outside rec) t b false) _ (word-Keeps t b false) (λ vars.
        with_vars-Keeps (codes "es:assign") vars _ (
          bind true (glom (shell dict outside rec) u b true) _ (word-Keeps u b true) (λ values.
            bind true
              (vardef_all dict outside (eval_alone dict outside rec)
                (share (words dict outside rec vars) values) b)
              (λ x s. (Outcome.value values, s))
              (vardef_all-Keeps outside (eval_alone dict outside rec)
                (λ list. keeping.eval_keeps list none no_flags)
                (share (words dict outside rec vars) values) b)
              (λ x. give-Keeps true values))))

  let_defn-Keeps : (d : Defn) (b context : Ref) → Keeps true (let_defn dict outside rec d b context)
  unfolding let_defn
  let_defn-Keeps Defn.absent b context = give-Keeps true b
  let_defn-Keeps Defn.refused b context = null-Keeps true
  let_defn-Keeps (Defn.assigned t u) b context =
      bind true (glom (shell dict outside rec) t context false) _ (word-Keeps t context false)
        (λ vars.
          bind true (glom (shell dict outside rec) u context true) _ (word-Keeps u context true)
            (λ values.
              let shares = share (words dict outside rec vars) values in
              with_vars-Keeps (codes "es:let") vars (mkbindings dict outside shares b)
                (mkbindings-Keeps outside shares b)))

  pub letbindings-Keeps :
      (ds : List Defn) (b context : Ref) → Keeps true (letbindings dict outside rec ds b context)
  unfolding letbindings
  letbindings-Keeps [] b context = give-Keeps true b
  letbindings-Keeps (d ∷ ds) b context =
      bind true (let_defn dict outside rec d b context)
        (λ b'. letbindings dict outside rec ds b' context) (let_defn-Keeps d b context)
        (λ b'. letbindings-Keeps ds b' context)

  -- A call between `varpush` and `varpop`.
  pub scope-Keeps :
      (name : Str) (defn : List Value) (call : Call (Sh W dict) (List Value))
      → Keeps true call
      → Keeps true (λ s.
        after
          (varpush dict has_binding Term.text (eval_alone dict outside rec) name defn s)
          (λ u s'. after (call s') (λ result s''.
            after (pop dict outside rec s'') (λ u' s'''. (Outcome.value result, s''')))))
  scope-Keeps name defn call k s n =
      varpush-then (eval_alone dict outside rec) (λ list. keeping.eval_keeps list none no_flags)
        name defn s _ n
        (λ t pushed.
          let held = Pushed-Held s t pushed in
          under true s t (call t) _ held (k t (IsNested-Held s t held n)) (λ list u same.
            under true s s (pop dict outside rec u) _ (Held-refl s)
              (pop-Ends outside rec keeping true s u (Pushed-Same s t u pushed same) n)
              (λ x v end. ends_value end)))

  localbind-Keeps :
      (dynamic : List (Str × List Value)) (lexical : Ref) (body : Tree) (flags : Flags)
      → Keeps true (localbind dict outside rec dynamic lexical body flags)
  unfolding localbind
  localbind-Keeps [] lexical body flags =
      weaken true (rec.walk body lexical flags) (keeping.walk_keeps body lexical flags)
  localbind-Keeps ((name, defn) ∷ dynamic) lexical body flags =
      scope-Keeps name defn (localbind dict outside rec dynamic lexical body flags)
        (localbind-Keeps dynamic lexical body flags)

  pub local-Keeps :
      (defn body : Tree) (b : Ref) (flags : Flags)
      → Keeps true (local dict outside rec defn body b flags)
  unfolding local
  local-Keeps defn body b flags =
      bind true (letbindings dict outside rec (defns defn) none b)
        (λ d s. localbind dict outside rec (reverse (chain s.rest.bindings d)) b body flags s)
        (letbindings-Keeps (defns defn) none b)
        (λ d s. localbind-Keeps (reverse (chain s.rest.bindings d)) b body flags s)
