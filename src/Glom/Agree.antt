-- ===== src/Glom/Agree.antt =====
-- `glom2` does what `glom1` does, and quotes the terms.
use desh.Common.{◌≡◌, refl, true, List, [], ◌∷◌, ◌++◌, length, ◌==◌, arith}
use desh.Match.{Quote}
use desh.Glom.Terms.{Tree, Term, Failure, Outcome}
use desh.Glom.Concat.{concat, qconcat}
use desh.Glom.Quotes.{AllFit, nil, cons, all_quoted, all_raw}
use desh.Glom.Rows.{AllFit-append, qconcat-Quoted}
use desh.Glom.Walk.{
  Call, Shell, after, give, glom1, Both, all_quoted_flags, together, pair_up, quote_all, glom2,
}

module _ {B S : Type 0} (shell : Shell B S) where
  -- The same state, and the same failure or the same terms, with a quoting that fits each term.
  pub data Agrees
      : Outcome (List (Term B) × List Quote) × S → Outcome (List (Term B)) × S → Type 0 where
    agree_value :
        {ts : List (Term B)} {qs : List Quote} {s : S}
        → AllFit shell.unparse ts qs
        → Agrees (Outcome.value (ts, qs), s) (Outcome.value ts, s)
    agree_failed : {f : Failure} {s : S} → Agrees (Outcome.failed f, s) (Outcome.failed f, s)
    agree_null : {s : S} → Agrees (Outcome.null_read, s) (Outcome.null_read, s)

  after-Agrees :
      (r2 : Outcome (List (Term B) × List Quote) × S) (r1 : Outcome (List (Term B)) × S)
      (f2 : Both shell → Call S (Both shell)) (f1 : List (Term B) → Call S (List (Term B)))
      → Agrees r2 r1
      → ((ts : List (Term B)) (qs : List Quote) (s : S)
          → AllFit shell.unparse ts qs
          → Agrees (f2 (ts, qs) s) (f1 ts s))
      → Agrees (after r2 f2) (after r1 f1)
  after-Agrees r2 r1 f2 f1 (agree_value {ts} {qs} {s} fit) h = h ts qs s fit
  after-Agrees r2 r1 f2 f1 agree_failed h = agree_failed
  after-Agrees r2 r1 f2 f1 agree_null h = agree_null

  length-AllFit :
      (ts : List (Term B)) (qs : List Quote)
      → AllFit shell.unparse ts qs
      → (length ts == length qs) ≡ true
  length-AllFit [] [] nil = refl
  length-AllFit [] (q ∷ qs) h = elim h [ ]
  length-AllFit (t ∷ ts) [] h = elim h [ ]
  length-AllFit (t ∷ ts) (q ∷ qs) (cons f fs) = ground (arith, length-AllFit ts qs fs)

  together-Agrees :
      (ts us : List (Term B)) (qs rs : List Quote) (s : S)
      → AllFit shell.unparse ts qs
      → AllFit shell.unparse us rs
      → Agrees (together shell (ts, qs) (us, rs) s) (Outcome.value (ts ++ us), s)
  together-Agrees [] us [] rs s nil g = agree_value g
  together-Agrees [] us (q ∷ qs) rs s h g = elim h [ ]
  together-Agrees (t ∷ ts) us qs rs s h g =
      rw (length-AllFit (t ∷ ts) qs h)
        (agree_value (AllFit-append shell.unparse (t ∷ ts) us qs rs h g))

  pair_up-Agrees :
      (ts us : List (Term B)) (qs rs : List Quote) (s : S)
      → AllFit shell.unparse ts qs
      → AllFit shell.unparse us rs
      → Agrees
          (pair_up shell (qconcat shell.unparse ts us qs rs) s)
          (Outcome.value (concat shell.unparse ts us), s)
  pair_up-Agrees ts us qs rs s h g =
      let r = qconcat-Quoted shell.unparse ts us qs rs h g in rw r.runs (agree_value r.fit)

  all_quoted-AllFit : (ts : List (Term B)) → AllFit shell.unparse ts (all_quoted_flags shell ts)
  unfolding all_quoted_flags
  all_quoted-AllFit [] = nil
  all_quoted-AllFit (t ∷ ts) = cons all_quoted (all_quoted-AllFit ts)

  quote_all-Agrees :
      (call : Call S (List (Term B))) (s : S) → Agrees (quote_all shell call s) (call s)
  quote_all-Agrees call s = go (call s)
    where
      go :
          (r : Outcome (List (Term B)) × S)
          → Agrees (after r (λ list. give shell (list, all_quoted_flags shell list))) r
      go (Outcome.value ts, s) = agree_value (all_quoted-AllFit ts)
      go (Outcome.failed f, s) = agree_failed
      go (Outcome.null_read, s) = agree_null

  -- For every tree, bindings and state, `glom2` ends as `glom1` does, in the same state with the same failure or the same terms, and its quote list has a quoting that fits each term.
  pub glom2-Agrees-glom1 :
      (t : Tree) (b : B) (s : S) → Agrees (glom2 shell t b s) (glom1 shell t b s)
  unfolding glom1 glom2
  glom2-Agrees-glom1 Tree.null b s = agree_value nil
  glom2-Agrees-glom1 (Tree.word w) b s = agree_value (cons all_raw nil)
  glom2-Agrees-glom1 (Tree.list t u) b s =
      after-Agrees (glom2 shell t b s) (glom1 shell t b s)
        (λ list s'. after (glom2 shell u b s') (λ rest. together shell list rest))
        (λ list s'. after (glom1 shell u b s') (λ rest. give shell (list ++ rest)))
        (glom2-Agrees-glom1 t b s)
        (λ ts qs s' fit.
          after-Agrees (glom2 shell u b s') (glom1 shell u b s')
            (λ rest. together shell (ts, qs) rest) (λ rest. give shell (ts ++ rest))
            (glom2-Agrees-glom1 u b s') (λ us rs s'' g. together-Agrees ts us qs rs s'' fit g))
  glom2-Agrees-glom1 (Tree.concat t u) b s =
      after-Agrees (glom2 shell t b s) (glom1 shell t b s)
        (λ (l, ql) s'.
          after (glom2 shell u b s') (λ (r, qr). pair_up shell (qconcat shell.unparse l r ql qr)))
        (λ l s'. after (glom1 shell u b s') (λ r. give shell (concat shell.unparse l r)))
        (glom2-Agrees-glom1 t b s)
        (λ ts qs s' fit.
          after-Agrees (glom2 shell u b s') (glom1 shell u b s')
            (λ (r, qr). pair_up shell (qconcat shell.unparse ts r qs qr))
            (λ r. give shell (concat shell.unparse ts r)) (glom2-Agrees-glom1 u b s')
            (λ us rs s'' g. pair_up-Agrees ts us qs rs s'' fit g))
  glom2-Agrees-glom1 (Tree.qword w) b s = quote_all-Agrees (glom1 shell (Tree.qword w) b) s
  glom2-Agrees-glom1 (Tree.prim w) b s = quote_all-Agrees (glom1 shell (Tree.prim w) b) s
  glom2-Agrees-glom1 (Tree.thunk t) b s = quote_all-Agrees (glom1 shell (Tree.thunk t) b) s
  glom2-Agrees-glom1 (Tree.var t) b s = quote_all-Agrees (glom1 shell (Tree.var t) b) s
  glom2-Agrees-glom1 (Tree.call t) b s = quote_all-Agrees (glom1 shell (Tree.call t) b) s
  glom2-Agrees-glom1 (Tree.lambda t u) b s = quote_all-Agrees (glom1 shell (Tree.lambda t u) b) s
  glom2-Agrees-glom1 (Tree.varsub t u) b s = quote_all-Agrees (glom1 shell (Tree.varsub t u) b) s
  glom2-Agrees-glom1 (Tree.other k t u) b s = quote_all-Agrees (glom1 shell (Tree.other k t u) b) s
