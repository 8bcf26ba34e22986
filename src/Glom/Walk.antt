-- ===== src/Glom/Walk.antt =====
-- src/glom.cpp: `glom1` and `glom2`, the walks over the tree of a word.
use desh.Common.{Bool, List, [], ◌∷◌, ◌++◌, Option, none, some, Str, length, ◌==◌, if◌then◌else◌}
use desh.Match.{Quote, quoted, unquoted}
use desh.Glom.Terms.{ℤ, Tree, Term, Failure, Outcome}
use desh.Glom.Concat.{getstr, concat, qconcat}
use desh.Glom.Subscript.{subscript}

-- A call that can change the state `S` of the shell.
abbrev pub Call : Type 0 → Type 0 → Type 0
Call S A = S → Outcome A × S

abbrev pub after : {S A C : Type 0} → Outcome A × S → (A → Call S C) → Outcome C × S
after (Outcome.value a, s) next = next a s
after (Outcome.failed f, s) next = (Outcome.failed f, s)
after (Outcome.null_read, s) next = (Outcome.null_read, s)

-- What the walks use of the rest of the shell.
pub record Shell (B S : Type 0) : Type 0 where
  pub unparse : Tree → Option B → Str
  pub atoi : Str → ℤ
  pub varlookup : Str → B → Call S (List (Term B))
  pub walk : Tree → B → Call S (List (Term B))
  pub glob : List (Term B) → List Quote → Call S (List (Term B))

module _ {B S : Type 0} (shell : Shell B S) where
  abbrev pub give : {A : Type 0} → A → Call S A
  give a s = (Outcome.value a, s)

  -- The loop of `case nVar` over the names.
  unfoldable pub lookup_all : List (Term B) → B → Call S (List (Term B))
  lookup_all [] b = give []
  lookup_all (t ∷ names) b = λ s.
      after (shell.varlookup (getstr shell.unparse t) b s)
        (λ list s'. after (lookup_all names b s') (λ rest. give (list ++ rest)))

  -- The tests of `case nVarsub`, and the lookup, which comes before the subscripts.
  unfoldable pub subscripted : List (Term B) → B → Call S (List (Term B)) → Call S (List (Term B))
  subscripted [] b subs s = (Outcome.failed Failure.null_name, s)
  subscripted (t ∷ u ∷ names) b subs s = (Outcome.failed Failure.multi_word_name, s)
  subscripted (t ∷ []) b subs s = after (shell.varlookup (getstr shell.unparse t) b s) (λ list s'.
      after (subs s') (λ sub s''. (subscript (getstr shell.unparse) shell.atoi list sub, s'')))

  -- `nList` goes on with the rest of the list, and `result` grows at its end; the other kinds end the
  -- loop.
  unfoldable pub glom1 : Tree → B → Call S (List (Term B))
  unfolding lookup_all subscripted
  glom1 Tree.null b = give []
  glom1 (Tree.qword w) b = give (Term.text w ∷ [])
  glom1 (Tree.word w) b = give (Term.text w ∷ [])
  glom1 (Tree.thunk t) b = give (Term.closure (Tree.thunk t) (some b) ∷ [])
  glom1 (Tree.lambda t u) b = give (Term.closure (Tree.lambda t u) (some b) ∷ [])
  glom1 (Tree.prim w) b = give (Term.closure (Tree.prim w) none ∷ [])
  glom1 (Tree.var t) b = λ s. after (glom1 t b s) (λ names. lookup_all names b)
  glom1 (Tree.varsub t u) b = λ s. after (glom1 t b s) (λ names. subscripted names b (glom1 u b))
  glom1 (Tree.call t) b = shell.walk t b
  glom1 (Tree.list t u) b =
      λ s. after (glom1 t b s) (λ list s'. after (glom1 u b s') (λ rest. give (list ++ rest)))
  glom1 (Tree.concat t u) b =
      λ s. after (glom1 t b s) (λ l s'. after (glom1 u b s') (λ r. give (concat shell.unparse l r)))
  glom1 (Tree.other k t u) b = λ s. (Outcome.failed (Failure.bad_node k), s)

  -- A list with a quoting for each of its terms.
  abbrev pub Both : Type 0
  Both = List (Term B) × List Quote

  -- `qlist` in `default`
  unfoldable pub all_quoted_flags : List (Term B) → List Quote
  all_quoted_flags [] = []
  all_quoted_flags (t ∷ list) = quoted ∷ all_quoted_flags list

  -- The loop at the end of a round goes through both lists and asserts that they end together.
  abbrev pub together : Both → Both → Call S Both
  together ([], qs) r = give r
  together (t ∷ list, qs) (rest, rs) = λ s.
      if length (t ∷ list) == length qs
      then (Outcome.value ((t ∷ list) ++ rest, qs ++ rs), s)
      else (Outcome.null_read, s)

  abbrev pub pair_up : Option Both → Call S Both
  pair_up none = λ s. (Outcome.null_read, s)
  pair_up (some r) = give r

  -- `default`: the other kinds of trees, whose terms are quoted.
  abbrev pub quote_all : Call S (List (Term B)) → Call S Both
  quote_all call = λ s. after (call s) (λ list. give (list, all_quoted_flags list))

  unfoldable pub glom2 : Tree → B → Call S Both
  unfolding all_quoted_flags glom1
  glom2 Tree.null b = give ([], [])
  glom2 (Tree.word w) b = give (Term.text w ∷ [], unquoted ∷ [])
  glom2 (Tree.list t u) b =
      λ s. after (glom2 t b s) (λ list s'. after (glom2 u b s') (λ rest. together list rest))
  glom2 (Tree.concat t u) b = λ s.
      after (glom2 t b s)
        (λ (l, ql) s'. after (glom2 u b s') (λ (r, qr). pair_up (qconcat shell.unparse l r ql qr)))
  glom2 (Tree.qword w) b = quote_all (glom1 (Tree.qword w) b)
  glom2 (Tree.prim w) b = quote_all (glom1 (Tree.prim w) b)
  glom2 (Tree.thunk t) b = quote_all (glom1 (Tree.thunk t) b)
  glom2 (Tree.var t) b = quote_all (glom1 (Tree.var t) b)
  glom2 (Tree.call t) b = quote_all (glom1 (Tree.call t) b)
  glom2 (Tree.lambda t u) b = quote_all (glom1 (Tree.lambda t u) b)
  glom2 (Tree.varsub t u) b = quote_all (glom1 (Tree.varsub t u) b)
  glom2 (Tree.other k t u) b = quote_all (glom1 (Tree.other k t u) b)

  unfoldable pub glom : Tree → B → Bool → Call S (List (Term B))
  unfolding glom1 glom2
  glom t b globit =
      if globit
      then (λ s. after (glom2 t b s) (λ (list, quote). shell.glob list quote))
      else glom1 t b
