-- ===== src/Token/Progress.antt =====
-- src/token.c: each call of `yylex` ends the input or leaves less to do.
use desh.Common.{
  ℕ, suc, ◌+◌, ◌*◌, ◌≤◌, ◌<◌, true, false, ◌&&◌, ◌||◌, not, List, [], ◌∷◌, ◌==◌, length, arith, ◌≡◌,
  refl, if◌then◌else◌, if_split, inl, inr, ◌⊎◌, subst, sym,
}
use desh.Token.State.{
  Lexer, Token, endfile, nl, non_word_state, key_word_state, Meta, print_prompt2, insert_free_caret,
  interactive_ctrl_c, is_meta, fd, char, is_non_word_state, backback, andand, oror,
}
use desh.Token.Scan.{getfds, quoted_string, word_bytes}
use desh.Token.Escape.{Ctypes, escape_switch}
use desh.Token.Word.{lex_word, word_meta, skip_blanks, next_is, is_blank}
use desh.Token.Yylex.{lex_token, lex_special, lex_backslash, lex_newline, lex_operator}
use desh.Token.Left.{word_bytes-left, getfds-left}
use desh.Token.Behind.{quoted_string-left, escape_switch-left}
use desh.Token.Within.{
  Within, interactive_ctrl_c-Within, lexical_error-Within, word_token-Within, lex_quoted-Within,
  lex_escaped-Within, lex_pipe-Within, lex_less-Within, lex_greater-Within, lex_comment-Within,
  lex_dollar-Within, token-Within, Within-le,
}

-- Three for each byte that is left, one for a word that a caret may follow, and one for an error
-- whose NL is still to come.
unfoldable pub weight : Lexer → ℕ
weight st =
    3 * length (st.input)
    + (if is_non_word_state (st.w) then 0 else 1)
    + (if st.goterror then 1 else 0)

-- There is less than `n` to do behind a call.
Lighter : ℕ → Token × Lexer → Type 0
Lighter n p = weight (p.1) < n

-- A call that reads a byte.
Within-Lighter :
    (s : List ℕ) (n : ℕ) (p : Token × Lexer)
    → Within (length s) p
    → 3 * suc (length s) ≤ n
    → Lighter n p
unfolding Lighter Within weight
Within-Lighter s n (t, st) h k = ground arith

module _ (ct : Ctypes) (c : ℕ) (s : List ℕ) (st : Lexer) where
  -- The weight before a call that finds the byte `c` first.
  before : ℕ
  before = 3 * suc (length s) + (if is_non_word_state (st.w) then 0 else 1)

  reads : (p : Token × Lexer) → Within (length s) p → Lighter before p
  unfolding before
  reads p h = Within-Lighter s before p h (ground arith)

  -- A call that may give a caret first.
  caret-Lighter :
      (next : Token × Lexer)
      → st.goterror ≡ false
      → Within (length s) next
      → Lighter before (insert_free_caret (c ∷ s) st next)
  unfolding insert_free_caret Lighter weight before
  caret-Lighter next g h =
      if_split (Lighter before) (is_non_word_state (st.w)) _ _ (λ b. reads next h)
        (λ b. rw g (rw b (omega arith)))

  lex_operator-Within : Within (length s) (lex_operator c s st)
  unfolding lex_operator lex_newline
  lex_operator-Within =
      if_split (Within (length s)) (c == b'#') _ _ (λ a. lex_comment-Within s st)
        (λ a.
          if_split (Within (length s)) (c == 10) _ _
            (λ a.
              token-Within nl 0 s
                (record st { lineno = suc st.lineno; newline = true; w = non_word_state }))
            (λ a.
              if_split (Within (length s)) (c == b'(') _ _ (λ a. token-Within _ 0 s none_left)
                (λ a.
                  if_split (Within (length s)) (c == b'&') _ _
                    (λ a.
                      if_split (Within (length s)) (next_is b'&' s) _ _
                        (λ j. token-Within andand 1 s none_left)
                        (λ j. token-Within (char c) 0 s none_left))
                    (λ a.
                      if_split (Within (length s)) (c == b'|') _ _
                        (λ a.
                          if_split (Within (length s)) (next_is b'|' s) _ _
                            (λ j. token-Within oror 1 s none_left)
                            (λ j.
                              Within-le _ _ _ (lex_pipe-Within (getfds s 1 (fd 0)) none_left)
                                (getfds-left s 1 (fd 0))))
                        (λ a.
                          if_split (Within (length s)) (c == b'<') _ _ (λ a. lex_less-Within s st)
                            (λ a.
                              if_split (Within (length s)) (c == b'>') _ _
                                (λ a. lex_greater-Within s st)
                                (λ a. token-Within (char c) 0 s none_left)))))))
    where
      none_left : Lexer
      none_left = record st { w = non_word_state }

  lex_special-Lighter :
      st.goterror ≡ false
      → Lighter before (lex_backslash ct s st)
      → Lighter before (lex_special ct c s st)
  unfolding lex_special
  lex_special-Lighter g back =
      if_split (Lighter before) (c == b'!') _ _
        (λ a. caret-Lighter _ g (token-Within (char c) 0 s (record st { w = key_word_state })))
        (λ a.
          if_split (Lighter before) (c == b'`') _ _
            (λ a. caret-Lighter _ g (
              if_split (Within (length s)) (next_is b'`' s) _ _ (λ j. token-Within backback 1 s st)
                (λ j. token-Within (char c) 0 s st)))
            (λ a.
              if_split (Lighter before) (c == b'$') _ _
                (λ a. caret-Lighter _ g (lex_dollar-Within s st))
                (λ a.
                  if_split (Lighter before) ((c == b'\'') || (c == b'"')) _ _
                    (λ a. caret-Lighter _ g (
                      Within-le _ _ _ (lex_quoted-Within (quoted_string c s) st)
                        (quoted_string-left c s)))
                    (λ a.
                      if_split (Lighter before) (c == b'\\') _ _ (λ a. back)
                        (λ a. reads _ lex_operator-Within)))))

weight-before :
    (ct : Ctypes) (c : ℕ) (s : List ℕ) (st : Lexer)
    → st.goterror ≡ false
    → st.input ≡ c ∷ s
    → weight st ≡ before ct c s st
unfolding weight before
weight-before ct c s st g e = rw e (rw g (omega arith))

module _ (ct : Ctypes) where
  lex_backslash-Lighter :
      (c : ℕ) (s : List ℕ) (st : Lexer)
      → st.goterror ≡ false
      → Lighter (before ct c s st) (lex_backslash ct s st)
  unfolding lex_backslash before
  lex_backslash-Lighter c [] st g = reads ct b'\\' [] st _ (lexical_error-Within _ [] st)
  lex_backslash-Lighter c (d ∷ s) st g = caret-Lighter ct b'\\' (d ∷ s) st _ g (
      Within-le _ _ _ (lex_escaped-Within (escape_switch ct d s) st)
        (omega (arith, escape_switch-left ct d s)))

  lex_word-Lighter :
      (meta : Meta) (c : ℕ) (s : List ℕ) (st : Lexer)
      → st.goterror ≡ false
      → Lighter (before ct c s st) (lex_word meta c s st)
  unfolding lex_word
  lex_word-Lighter meta c s st g = caret-Lighter ct c s st _ g (
      Within-le _ _ _ (word_token-Within (c ∷ ((word_bytes (word_meta c meta) s).0)) _ st)
        (word_bytes-left (word_meta c meta) s))

  -- The end of the input, or less to do.
  unfoldable pub Progress : ℕ → Token × Lexer → Type 0
  Progress n p = ((p.0 ≡ endfile) × (p.1.input ≡ [])) ⊎ (weight (p.1) < n)

  pub lex_token-Progress :
      (meta : Meta) (i : List ℕ) (st : Lexer)
      → st.goterror ≡ false
      → st.input ≡ i
      → Progress (weight st) (lex_token ct meta i st)
  unfolding lex_token Progress interactive_ctrl_c Lighter
  lex_token-Progress meta [] st g e = inl (refl, e)
  lex_token-Progress meta (c ∷ s) st g e = inr (
      subst (λ n. Lighter n (lex_token ct meta (c ∷ s) st)) (sym same)
        (if_split (Lighter (before ct c s st)) (c == 0) _ _
          (λ a. reads ct c s st _ (interactive_ctrl_c-Within (record st { input = s })))
          (λ a.
            if_split (Lighter (before ct c s st)) (not (is_meta meta c)) _ _
              (λ b. lex_word-Lighter meta c s st g)
              (λ b. lex_special-Lighter ct c s st g (lex_backslash-Lighter c s st g)))))
    where
      same : weight st ≡ before ct c s st
      same = weight-before ct c s st g e

  -- The blanks add nothing.
  pub skip_blanks-weight :
      (s : List ℕ) (st : Lexer) → weight (skip_blanks s st) ≤ weight (record st { input = s })
  unfolding skip_blanks weight
  skip_blanks-weight [] st = omega arith
  skip_blanks-weight (c ∷ []) st =
      if_split (λ st'. weight st' ≤ weight (record st { input = c ∷ [] })) (is_blank c) _ _
        (λ b. ground arith) (λ b. omega arith)
  skip_blanks-weight (c ∷ d ∷ s) st =
      if_split (λ st'. weight st' ≤ weight (record st { input = c ∷ d ∷ s })) (is_blank c) _ _
        (λ b. ground (arith, skip_blanks-weight (d ∷ s) (record st { w = non_word_state })))
        (λ b.
          if_split (λ st'. weight st' ≤ weight (record st { input = c ∷ d ∷ s }))
            ((c == b'\\') && (d == 10)) _ _
            (λ j.
              ground
                (arith, skip_blanks-weight s (record (print_prompt2 1 st) { w = non_word_state })))
            (λ j. omega arith))
