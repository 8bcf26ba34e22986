-- ===== src/Eval/Words.antt =====
-- src/glom.cpp, src/closure.c, src/var.c: the scope of words, bindings and definitions.
use desh.Common.{
  ℕ, Bool, true, false, Option, none, some, List, [], ◌∷◌, ◌++◌, refl, if_split, Str, streq, length,
  ◌==◌,
}
use desh.Match.{Quote}
use desh.Glom.Terms.{Tree, Failure, Outcome}
use desh.Glom.Concat.{getstr, concat, qconcat}
use desh.Glom.Subscript.{subscript}
use desh.Glom.Subscript.Safe.{IsDefined, value_defined, failed_defined, subscript-IsDefined}
use desh.Glom.Walk.{
  Call, give, Shell, lookup_all, subscripted, glom1, Both, all_quoted_flags, together, pair_up,
  quote_all, glom2, glom,
}
use desh.Var.Dictionary.{Dictionary}
use desh.Var.State.{Var, iscounting, validatevar}
use desh.Var.Assign.{name_failure}
use desh.Eval.State.{Ref, Value, Binding, Sh, Outside}
use desh.Eval.Bindings.{
  find, meaning, mkbinding, mkbindings, varlookup, define_at, vardef, vardef_all,
}
use desh.Eval.Ends.{
  IsRaw, Ends, ends_value, ends_raw, ends_null, Keeps, Same-refl, Held-refl, bind, give-Keeps,
  null-Keeps, fail-Keeps,
}
use desh.Eval.Unwinds.{name_failure-IsRaw, define-Keeps}

module _ {W : Type 0} {dict : Dictionary (Var Value)} where
  -- An outcome that does not depend on the state.
  outcome-Keeps :
      {A : Type 0} (o : Outcome A) → IsDefined o → Keeps true {A = A} (λ (s : Sh W dict). (o, s))
  unfolding IsRaw
  outcome-Keeps o value_defined s n = ends_value (Same-refl s)
  outcome-Keeps o failed_defined s n = ends_raw refl tt (Held-refl s)

  module _ (shell : Shell Ref (Sh W dict))
      (lookup : (name : Str) (b : Ref) → Keeps true (shell.varlookup name b))
      (walk : (t : Tree) (b : Ref) → Keeps true (shell.walk t b))
      (glob : (list : List Value) (quote : List Quote) → Keeps true (shell.glob list quote)) where
    lookup_all-Keeps : (names : List Value) (b : Ref) → Keeps true (lookup_all shell names b)
    unfolding lookup_all
    lookup_all-Keeps [] b = give-Keeps true []
    lookup_all-Keeps (t ∷ names) b =
        bind true (shell.varlookup (getstr shell.unparse t) b) _ (lookup (getstr shell.unparse t) b)
          (λ list.
            bind true (lookup_all shell names b) (λ rest. give shell (list ++ rest))
              (lookup_all-Keeps names b) (λ rest. give-Keeps true (list ++ rest)))

    subscripted-Keeps :
        (names : List Value) (b : Ref) (subs : Call (Sh W dict) (List Value))
        → Keeps true subs
        → Keeps true (subscripted shell names b subs)
    unfolding subscripted IsRaw
    subscripted-Keeps [] b subs k = fail-Keeps Failure.null_name tt
    subscripted-Keeps (t ∷ u ∷ names) b subs k = fail-Keeps Failure.multi_word_name tt
    subscripted-Keeps (t ∷ []) b subs k =
        bind true (shell.varlookup (getstr shell.unparse t) b) _ (lookup (getstr shell.unparse t) b)
          (λ list.
            bind true subs (λ sub s''. (subscript (getstr shell.unparse) shell.atoi list sub, s''))
              k
              (λ sub.
                outcome-Keeps (subscript (getstr shell.unparse) shell.atoi list sub)
                  (subscript-IsDefined (getstr shell.unparse) shell.atoi list sub)))

    glom1-Keeps : (t : Tree) (b : Ref) → Keeps true (glom1 shell t b)
    unfolding glom1 IsRaw
    glom1-Keeps Tree.null b = give-Keeps true []
    glom1-Keeps (Tree.qword w) b = give-Keeps true _
    glom1-Keeps (Tree.word w) b = give-Keeps true _
    glom1-Keeps (Tree.thunk t) b = give-Keeps true _
    glom1-Keeps (Tree.lambda t u) b = give-Keeps true _
    glom1-Keeps (Tree.prim w) b = give-Keeps true _
    glom1-Keeps (Tree.var t) b =
        bind true (glom1 shell t b) (λ names. lookup_all shell names b) (glom1-Keeps t b)
          (λ names. lookup_all-Keeps names b)
    glom1-Keeps (Tree.varsub t u) b =
        bind true (glom1 shell t b) (λ names. subscripted shell names b (glom1 shell u b))
          (glom1-Keeps t b) (λ names. subscripted-Keeps names b (glom1 shell u b) (glom1-Keeps u b))
    glom1-Keeps (Tree.call t) b = walk t b
    glom1-Keeps (Tree.list t u) b = bind true (glom1 shell t b) _ (glom1-Keeps t b) (λ list.
        bind true (glom1 shell u b) (λ rest. give shell (list ++ rest)) (glom1-Keeps u b)
          (λ rest. give-Keeps true (list ++ rest)))
    glom1-Keeps (Tree.concat t u) b = bind true (glom1 shell t b) _ (glom1-Keeps t b) (λ l.
        bind true (glom1 shell u b) (λ r. give shell (concat shell.unparse l r)) (glom1-Keeps u b)
          (λ r. give-Keeps true (concat shell.unparse l r)))
    glom1-Keeps (Tree.other k t u) b = fail-Keeps (Failure.bad_node k) tt

    together-Keeps : (l r : Both shell) → Keeps true (together shell l r)
    together-Keeps ([], qs) r = give-Keeps true r
    together-Keeps (t ∷ list, qs) (rest, rs) = λ s n.
        if_split (Ends true s) (length (t ∷ list) == length qs)
          (Outcome.value ((t ∷ list) ++ rest, qs ++ rs), s) (Outcome.null_read, s)
          (λ h. ends_value (Same-refl s)) (λ h. ends_null)

    pair_up-Keeps : (o : Option (Both shell)) → Keeps true (pair_up shell o)
    pair_up-Keeps none = null-Keeps true
    pair_up-Keeps (some r) = give-Keeps true r

    quote_all-Keeps : (t : Tree) (b : Ref) → Keeps true (quote_all shell (glom1 shell t b))
    quote_all-Keeps t b =
        bind true (glom1 shell t b) (λ list. give shell (list, all_quoted_flags shell list))
          (glom1-Keeps t b) (λ list. give-Keeps true (list, all_quoted_flags shell list))

    pub glom2-Keeps : (t : Tree) (b : Ref) → Keeps true (glom2 shell t b)
    unfolding glom2
    glom2-Keeps Tree.null b = give-Keeps true ([], [])
    glom2-Keeps (Tree.word w) b = give-Keeps true _
    glom2-Keeps (Tree.list t u) b = bind true (glom2 shell t b) _ (glom2-Keeps t b) (λ list.
        bind true (glom2 shell u b) (λ rest. together shell list rest) (glom2-Keeps u b)
          (λ rest. together-Keeps list rest))
    glom2-Keeps (Tree.concat t u) b = bind true (glom2 shell t b) _ (glom2-Keeps t b) (λ (l, ql).
        bind true (glom2 shell u b) (λ (r, qr). pair_up shell (qconcat shell.unparse l r ql qr))
          (glom2-Keeps u b) (λ (r, qr). pair_up-Keeps (qconcat shell.unparse l r ql qr)))
    glom2-Keeps (Tree.qword w) b = quote_all-Keeps (Tree.qword w) b
    glom2-Keeps (Tree.prim w) b = quote_all-Keeps (Tree.prim w) b
    glom2-Keeps (Tree.thunk t) b = quote_all-Keeps (Tree.thunk t) b
    glom2-Keeps (Tree.var t) b = quote_all-Keeps (Tree.var t) b
    glom2-Keeps (Tree.call t) b = quote_all-Keeps (Tree.call t) b
    glom2-Keeps (Tree.lambda t u) b = quote_all-Keeps (Tree.lambda t u) b
    glom2-Keeps (Tree.varsub t u) b = quote_all-Keeps (Tree.varsub t u) b
    glom2-Keeps (Tree.other k t u) b = quote_all-Keeps (Tree.other k t u) b

    pub glom-Keeps : (t : Tree) (b : Ref) (globit : Bool) → Keeps true (glom shell t b globit)
    unfolding glom
    glom-Keeps t b true =
        bind true (glom2 shell t b) (λ (list, quote). shell.glob list quote) (glom2-Keeps t b)
          (λ (list, quote). glob list quote)
    glom-Keeps t b false = glom1-Keeps t b

  module _ (outside : Outside W dict) where
    pub mkbinding-Keeps :
        (name : Str) (defn : List Value) (next : Ref)
        → Keeps true (mkbinding dict outside name defn next)
    unfolding mkbinding
    mkbinding-Keeps name defn next s n =
        if_split (Ends true s) (validatevar name) _ (Outcome.failed (name_failure name), s)
          (λ h. ends_value (record { pushes = refl; links = refl; depth = refl }))
          (λ h. ends_raw refl (name_failure-IsRaw name) (Held-refl s))

    pub mkbindings-Keeps :
        (shares : List (Str × List Value)) (b : Ref) → Keeps true (mkbindings dict outside shares b)
    unfolding mkbindings
    mkbindings-Keeps [] b = give-Keeps true b
    mkbindings-Keeps ((name, defn) ∷ shares) b =
        bind true (mkbinding dict outside name defn b) (λ b'. mkbindings dict outside shares b')
          (mkbinding-Keeps name defn b) (λ b'. mkbindings-Keeps shares b')

    pub varlookup-Keeps : (name : Str) (b : Ref) → Keeps true (varlookup dict outside name b)
    unfolding varlookup
    varlookup-Keeps name b s n =
        if_split (Ends true s) (iscounting name) _ _ (λ h. ends_value (Same-refl s))
          (λ h.
            if_split (Ends true s) (validatevar name)
              (Outcome.value (meaning dict outside name b s), s)
              (Outcome.failed (name_failure name), s) (λ h'. ends_value (Same-refl s))
              (λ h'. ends_raw refl (name_failure-IsRaw name) (Held-refl s)))

    module _ (eval : List Value → Call (Sh W dict) (List Value))
        (keeps : (list : List Value) → Keeps false (eval list)) where
      define_at-Keeps :
          (o : Option (ℕ × Binding)) (name : Str) (defn : List Value)
          → Keeps true (define_at dict outside eval o name defn)
      define_at-Keeps none name defn s n = define-Keeps eval keeps true name defn s n
      define_at-Keeps (some (i, b)) name defn s n =
          ends_value (record { pushes = refl; links = refl; depth = refl })

      vardef-Keeps :
          (name : Str) (b : Ref) (defn : List Value)
          → Keeps true (vardef dict outside eval name b defn)
      unfolding vardef
      vardef-Keeps name b defn s n =
          let o = find (λ x. streq name x) s.rest.bindings b in
          if_split (Ends true s) (validatevar name) (define_at dict outside eval o name defn s)
            (Outcome.failed (name_failure name), s) (λ h. define_at-Keeps o name defn s n)
            (λ h. ends_raw refl (name_failure-IsRaw name) (Held-refl s))

      pub vardef_all-Keeps :
          (shares : List (Str × List Value)) (b : Ref)
          → Keeps true (vardef_all dict outside eval shares b)
      unfolding vardef_all
      vardef_all-Keeps [] b = give-Keeps true tt
      vardef_all-Keeps ((name, defn) ∷ shares) b =
          bind true (vardef dict outside eval name b defn)
            (λ u. vardef_all dict outside eval shares b) (vardef-Keeps name b defn)
            (λ u. vardef_all-Keeps shares b)
