-- ===== src/Token/Termination.antt =====
-- src/token.c: calls of `yylex` come to the end of the input.
use desh.Common.{
  ℕ, zero, suc, ◌≤◌, ◌<◌, true, false, List, [], ◌∷◌, arith, ◌≡◌, refl, subst, ◌∙◌, if◌then◌else◌,
  if_split, inl, inr, ◌&&◌, ◌==◌,
}
use desh.Token.State.{
  Lexer, Token, nl, endfile, non_word_meta, dollar_meta, print_prompt2, non_word_state,
}
use desh.Token.Escape.{Ctypes}
use desh.Token.Word.{skip_blanks, is_blank}
use desh.Token.Yylex.{yylex, begin_line}
use desh.Token.Progress.{weight, Progress, lex_token-Progress, skip_blanks-weight}

skip_blanks-goterror : (s : List ℕ) (st : Lexer) → (skip_blanks s st).goterror ≡ st.goterror
unfolding skip_blanks print_prompt2
skip_blanks-goterror [] st = refl
skip_blanks-goterror (c ∷ []) st =
    if_split (λ (st' : Lexer). st'.goterror ≡ st.goterror) (is_blank c) _ _ (λ b. refl) (λ b. refl)
skip_blanks-goterror (c ∷ d ∷ s) st =
    if_split (λ (st' : Lexer). st'.goterror ≡ st.goterror) (is_blank c) _ _
      (λ b. skip_blanks-goterror (d ∷ s) (record st { w = non_word_state }))
      (λ b.
        if_split (λ (st' : Lexer). st'.goterror ≡ st.goterror) ((c == b'\\') && (d == 10)) _ _
          (λ j. skip_blanks-goterror s (record (print_prompt2 1 st) { w = non_word_state }))
          (λ j. refl))

begin_line-goterror : (st : Lexer) → (begin_line st).goterror ≡ st.goterror
unfolding begin_line print_prompt2
begin_line-goterror st =
    if_split (λ (st' : Lexer). st'.goterror ≡ st.goterror) (st.newline) _ _ (λ b. refl) (λ b. refl)

begin_line-weight : (st : Lexer) → weight (begin_line st) ≡ weight st
unfolding begin_line print_prompt2 weight
begin_line-weight st =
    if_split (λ (st' : Lexer). weight st' ≡ weight st) (st.newline) _ _ (λ b. refl) (λ b. refl)

Progress-le :
    (ct : Ctypes) (n m : ℕ) (p : Token × Lexer) → Progress ct n p → n ≤ m → Progress ct m p
unfolding Progress
Progress-le ct n m p (inl e) k = inl e
Progress-le ct n m p (inr h) k = inr (omega arith)

no_dollar : (st : Lexer) → weight (record st { dollar = false }) ≡ weight st
unfolding weight
no_dollar st = refl

error-weight :
    (st : Lexer) → st.goterror ≡ true → weight (record st { goterror = false }) < weight st
unfolding weight
error-weight st g = rw g (omega arith)

error-Progress :
    (ct : Ctypes) (st : Lexer)
    → st.goterror ≡ true
    → Progress ct (weight st) (nl, record st { goterror = false })
unfolding Progress
error-Progress ct st g = inr (error-weight st g)

skipped-weight :
    (ct : Ctypes) (st : Lexer)
    → weight (
        skip_blanks
          (begin_line (record st { dollar = false })).input
          (begin_line (record st { dollar = false })))
      ≤ weight st
skipped-weight ct st =
    subst (λ n. weight (skip_blanks (begun.input) begun) ≤ n) begun-weight
      (skip_blanks-weight ct (begun.input) begun)
  where
    begun : Lexer
    begun = begin_line (record st { dollar = false })

    begun-weight : weight begun ≡ weight st
    begun-weight = begin_line-weight (record st { dollar = false }) ∙ no_dollar st

module _ (ct : Ctypes) where
  -- Each call of `yylex`, from any state, returns ENDFILE with no input left, or leaves a state of
  -- less weight: three for each byte that is left, one for a word that a caret may follow, and one
  -- for an error whose NL is still to come.
  pub yylex-Progress : (st : Lexer) → Progress ct (weight st) (yylex ct st)
  unfolding yylex
  yylex-Progress st =
      if_split (Progress ct (weight st)) (st.goterror) _ _ (λ g. error-Progress ct st g)
        (λ g.
          let begun : Lexer = begin_line (record st { dollar = false }) in
          let skipped : Lexer = skip_blanks begun.input begun in
          Progress-le ct (weight skipped) (weight st) _
            (lex_token-Progress ct (if st.dollar then dollar_meta else non_word_meta) skipped.input
              skipped
              (skip_blanks-goterror begun.input begun
                ∙ begin_line-goterror (record st { dollar = false })
                ∙ g)
              refl)
            (skipped-weight ct st))

  -- The state behind `n` calls.
  unfoldable pub calls : ℕ → Lexer → Lexer
  calls zero st = st
  calls (suc n) st = calls n ((yylex ct st).1)

  -- The input ends at call number `n`, counted from 0.
  unfoldable pub EndsAt : Lexer → ℕ → Type 0
  EndsAt st n = ((yylex ct (calls n st)).0 ≡ endfile) × ((yylex ct (calls n st)).1.input ≡ [])

  -- One call, and those behind it.
  one_call :
      (st : Lexer)
      → ((st' : Lexer) → weight st' < weight st → (n : ℕ) × (n ≤ weight st') × EndsAt st' n)
      → Progress ct (weight st) (yylex ct st)
      → (n : ℕ) × (n ≤ weight st) × EndsAt st n
  unfolding Progress EndsAt calls
  one_call st rest (inl e) = (0, omega arith, e)
  one_call st rest (inr l) =
      let (n, m, ends) = rest ((yylex ct st).1) l in (suc n, omega arith, ends)

  calls-EndsAt : (k : ℕ) (st : Lexer) → weight st ≤ k → (n : ℕ) × (n ≤ weight st) × EndsAt st n
  unfolding Progress EndsAt calls
  calls-EndsAt zero st h = one_call st (λ st' l. absurd (omega arith)) (yylex-Progress st)
  calls-EndsAt (suc k) st h =
      one_call st (λ st' l. calls-EndsAt k st' (omega arith)) (yylex-Progress st)

  -- From every state, some call of `yylex` returns ENDFILE with no input left, and no more calls
  -- than the weight of the state come before it.
  pub calls_end : (st : Lexer) → (n : ℕ) × (n ≤ weight st) × EndsAt st n
  calls_end st = calls-EndsAt (weight st) st (omega arith)
