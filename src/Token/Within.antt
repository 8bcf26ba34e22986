-- ===== src/Token/Within.antt =====
-- src/token.c: the cases of `yylex` leave no more input than they find.
use desh.Common.{
  ℕ, suc, ◌≤◌, true, List, [], ◌∷◌, ◌==◌, length, arith, if_split, Str, drop, inl, inr, length-drop,
  Option-cases,
}
use desh.Token.State.{
  Lexer, Token, scanerror, interactive_ctrl_c, fd, closed_fd, default_fd, call_token, count_token,
  flat_token, prim_token, char,
}
use desh.Token.Scan.{Fds, fds, bad_fds, getfds, Quoted, closed, interrupted, unclosed}
use desh.Token.Escape.{Escaped, escaped, bad_escape, interrupt}
use desh.Token.Word.{word_token, special_word, next_is}
use desh.Token.Yylex.{
  lex_quoted, lex_escaped, lexical_error, lex_newline, lex_comment, lex_dollar, lex_pipe,
  lex_redirection, redirection, lex_less, lex_greater,
}
use desh.Token.Left.{skip_line-left, fds_left, getfds-left}
use desh.Token.Behind.{quoted_left, escape_left}

-- At most `n` bytes are left behind a call.
unfoldable pub Within : ℕ → Token × Lexer → Type 0
Within n p = length (p.1.input) ≤ n

scanerror-left : (s : Str) (st : Lexer) → length ((scanerror s st).input) ≤ length (st.input)
unfolding scanerror
scanerror-left s st = skip_line-left (st.input)

pub lex_quoted-Within :
    (q : Quoted) (st : Lexer) → Within (length (quoted_left q)) (lex_quoted q st)
unfolding lex_quoted Within scanerror interactive_ctrl_c
lex_quoted-Within (closed s n left) st = omega arith
lex_quoted-Within (interrupted n left) st = skip_line-left left
lex_quoted-Within (unclosed n) st = skip_line-left []

pub lex_escaped-Within :
    (x : Escaped) (st : Lexer) → Within (length (escape_left x)) (lex_escaped x st)
unfolding lex_escaped Within scanerror interactive_ctrl_c
lex_escaped-Within (escaped s left) st = omega arith
lex_escaped-Within (bad_escape left) st = skip_line-left left
lex_escaped-Within (interrupt left) st = skip_line-left left

pub lex_pipe-Within : (f : Fds) (st : Lexer) → Within (length (fds_left f)) (lex_pipe f st)
unfolding lex_pipe Within scanerror
lex_pipe-Within (fds n (fd m) left) st = omega arith
lex_pipe-Within (fds n closed_fd left) st = skip_line-left left
lex_pipe-Within (fds n default_fd left) st = omega arith
lex_pipe-Within (bad_fds message left) st = skip_line-left left

lex_redirection-Within :
    (cmd : Str) (f : Fds) (st : Lexer) → Within (length (fds_left f)) (lex_redirection cmd f st)
unfolding lex_redirection Within scanerror
lex_redirection-Within cmd (fds n (fd m) left) st = omega arith
lex_redirection-Within cmd (fds n closed_fd left) st = omega arith
lex_redirection-Within cmd (fds n default_fd left) st = omega arith
lex_redirection-Within cmd (bad_fds message left) st = skip_line-left left

pub Within-le : (n m : ℕ) (p : Token × Lexer) → Within n p → n ≤ m → Within m p
unfolding Within
Within-le n m p h k = omega arith

pub token-Within :
    (t : Token) (k : ℕ) (s : List ℕ) (st : Lexer)
    → Within (length s) (t, record st { input = drop k s })
unfolding Within
token-Within t k s st = omega (arith, length-drop k s)

redirection-Within :
    (cmd : Str) (n k : ℕ) (s : List ℕ) (st : Lexer)
    → Within (length s) (redirection cmd n (drop k s) st)
unfolding redirection
redirection-Within cmd n k s st =
    Within-le _ (length s) _ (lex_redirection-Within cmd (getfds (drop k s) n default_fd) _)
      (omega (arith, getfds-left (drop k s) n default_fd, length-drop k s))

pub lex_less-Within : (s : List ℕ) (st : Lexer) → Within (length s) (lex_less s st)
unfolding lex_less
lex_less-Within s st =
    if_split (Within (length s)) (next_is b'>' s) _ _
      (λ a.
        if_split (Within (length s)) (next_is b'>' (drop 1 s)) _ _
          (λ b. redirection-Within _ 0 2 s st) (λ b. redirection-Within _ 0 1 s st))
      (λ a.
        if_split (Within (length s)) (next_is b'<' s) _ _
          (λ b.
            if_split (Within (length s)) (next_is b'<' (drop 1 s)) _ _
              (λ c. redirection-Within _ 0 2 s st) (λ c. redirection-Within _ 0 1 s st))
          (λ b.
            if_split (Within (length s)) (next_is b'=' s) _ _ (λ c. token-Within call_token 1 s st)
              (λ c. redirection-Within _ 0 0 s st)))

pub lex_greater-Within : (s : List ℕ) (st : Lexer) → Within (length s) (lex_greater s st)
unfolding lex_greater
lex_greater-Within s st =
    if_split (Within (length s)) (next_is b'>' s) _ _
      (λ a.
        if_split (Within (length s)) (next_is b'<' (drop 1 s)) _ _
          (λ b. redirection-Within _ 1 2 s st) (λ b. redirection-Within _ 1 1 s st))
      (λ a.
        if_split (Within (length s)) (next_is b'<' s) _ _ (λ b. redirection-Within _ 1 1 s st)
          (λ b. redirection-Within _ 1 0 s st))

pub lex_comment-Within : (s : List ℕ) (st : Lexer) → Within (length s) (lex_comment s st)
unfolding lex_comment lex_newline interactive_ctrl_c scanerror Within
lex_comment-Within [] st = omega arith
lex_comment-Within (c ∷ s) st =
    if_split (Within (suc (length s))) (c == 10) _ _ (λ b. omega arith)
      (λ b.
        if_split (Within (suc (length s))) (c == 0) _ _ (λ j. omega (arith, skip_line-left s))
          (λ j. omega (arith, lex_comment-Within s st)))

pub lex_dollar-Within : (s : List ℕ) (st : Lexer) → Within (length s) (lex_dollar s st)
unfolding lex_dollar
lex_dollar-Within s st =
    if_split (Within (length s)) (next_is b'#' s) _ _
      (λ a. token-Within count_token 1 s (record st { dollar = true }))
      (λ a.
        if_split (Within (length s)) (next_is b'^' s) _ _
          (λ b. token-Within flat_token 1 s (record st { dollar = true }))
          (λ b.
            if_split (Within (length s)) (next_is b'&' s) _ _
              (λ c. token-Within prim_token 1 s (record st { dollar = true }))
              (λ c. token-Within (char b'$') 0 s (record st { dollar = true }))))

pub lexical_error-Within :
    (message : Str) (left : List ℕ) (st : Lexer)
    → Within (length left) (lexical_error message left st)
unfolding Within scanerror
lexical_error-Within message left st = skip_line-left left

pub word_token-Within :
    (s : Str) (left : List ℕ) (st : Lexer) → Within (length left) (word_token s left st)
unfolding word_token Within
word_token-Within s left st = elim (Option-cases (special_word s left)) [
  | inl h ↦ rw (h, word_token) (omega arith)
  | inr (t, h) ↦ rw (h, word_token) (omega arith)
]

pub interactive_ctrl_c-Within : (st : Lexer) → Within (length (st.input)) (interactive_ctrl_c st)
unfolding Within interactive_ctrl_c scanerror
interactive_ctrl_c-Within st = skip_line-left (st.input)
