-- ===== src/Token/Yylex.antt =====
-- src/token.c: `yylex` and `inityy`.
use desh.Common.{
  ℕ, suc, ◌-◌, Bool, true, false, ◌||◌, not, List, [], ◌∷◌, ◌==◌, if◌then◌else◌, Str, codes, drop,
}
use desh.Token.State.{
  Lexer, Token, Meta, is_meta, non_word_meta, dollar_meta, WordState, non_word_state,
  key_word_state, real_word_state, closed_fd, default_fd, fd, insert_free_caret, print_prompt2,
  scanerror, interactive_ctrl_c, char, qword, endfile, nl, error_token, call_token, backback,
  count_token, flat_token, prim_token, andand, oror, sub_token, pipe, dup, redir,
}
use desh.Token.Scan.{
  Fds, fds, bad_fds, getfds, Quoted, closed, interrupted, unclosed, quoted_string,
}
use desh.Token.Escape.{Ctypes, Escaped, escaped, bad_escape, interrupt, escape_switch}
use desh.Token.Word.{lex_word, skip_blanks, next_is}

-- The token `t`, with `input` what is left.
abbrev pub token : Token → List ℕ → Lexer → Token × Lexer
token t input st = (t, record st { input = input })

-- `scanerror(message); return ERROR`, with `input` what is left before it.
abbrev pub lexical_error : Str → List ℕ → Lexer → Token × Lexer
lexical_error message input st = (error_token, scanerror message (record st { input = input }))

-- Behind the `'` or the `"`.
unfoldable pub lex_quoted : Quoted → Lexer → Token × Lexer
unfolding interactive_ctrl_c scanerror print_prompt2
lex_quoted (closed s lines left) st =
    token (qword s) left (print_prompt2 lines (record st { w = real_word_state }))
lex_quoted (interrupted lines left) st =
    interactive_ctrl_c (record (print_prompt2 lines st) { input = left })
lex_quoted (unclosed lines) st =
    lexical_error (codes "eof in quoted string") []
      (print_prompt2 lines (record st { w = non_word_state }))

-- Behind a backslash and the free caret.
unfoldable pub lex_escaped : Escaped → Lexer → Token × Lexer
unfolding interactive_ctrl_c scanerror
lex_escaped (escaped s left) st = token (qword s) left (record st { w = real_word_state })
lex_escaped (bad_escape left) st =
    lexical_error (codes "bad backslash escape") left (record st { w = real_word_state })
lex_escaped (interrupt left) st = interactive_ctrl_c (record st { input = left })

-- `case '\\'`, where no line ends behind the backslash.
unfoldable pub lex_backslash : Ctypes → List ℕ → Lexer → Token × Lexer
unfolding scanerror escape_switch lex_escaped insert_free_caret
lex_backslash ct [] st = lexical_error (codes "bad backslash escape") [] st
lex_backslash ct (c ∷ s) st =
    insert_free_caret (b'\\' ∷ c ∷ s) st (lex_escaped (escape_switch ct c s) st)

-- `case '\n'`
unfoldable pub lex_newline : List ℕ → Lexer → Token × Lexer
lex_newline left st =
    token nl left (record st { lineno = suc st.lineno; newline = true; w = non_word_state })

-- `case '#'`
unfoldable pub lex_comment : List ℕ → Lexer → Token × Lexer
unfolding interactive_ctrl_c lex_newline
lex_comment [] st = token endfile [] st
lex_comment (c ∷ s) st =
    let rest = lex_comment s st in
    if c == 10
    then lex_newline s st
    else if c == 0
    then interactive_ctrl_c (record st { input = s })
    else rest

-- `case '$'`
unfoldable pub lex_dollar : List ℕ → Lexer → Token × Lexer
lex_dollar s st =
    let after = record st { dollar = true } in
    if next_is b'#' s
    then token count_token (drop 1 s) after
    else if next_is b'^' s
    then token flat_token (drop 1 s) after
    else if next_is b'&' s
    then token prim_token (drop 1 s) after
    else token (char b'$') s after

-- `case '|'` behind `||`; DEFAULT, which `getfds` is not given here, does not come back.
unfoldable pub lex_pipe : Fds → Lexer → Token × Lexer
unfolding scanerror
lex_pipe (fds n (fd m) left) st = token (pipe n m) left st
lex_pipe (fds n closed_fd left) st = lexical_error (codes "expected digit after '='") left st
lex_pipe (fds n default_fd left) st = token (pipe n 0) left st
lex_pipe (bad_fds message left) st = lexical_error message left st

-- `redirection:` behind `getfds`
unfoldable pub lex_redirection : Str → Fds → Lexer → Token × Lexer
unfolding scanerror
lex_redirection cmd (fds n default_fd left) st = token (redir cmd n) left st
lex_redirection cmd (fds n closed_fd left) st = token (dup n closed_fd) left st
lex_redirection cmd (fds n (fd m) left) st = token (dup n (fd m)) left st
lex_redirection cmd (bad_fds message left) st = lexical_error message left st

-- `redirection:`, with the default descriptor and what is left behind the operator
unfoldable pub redirection : Str → ℕ → List ℕ → Lexer → Token × Lexer
unfolding lex_redirection getfds
redirection cmd n s st =
    lex_redirection cmd (getfds s n default_fd) (record st { w = non_word_state })

-- `case '<'`
unfoldable pub lex_less : List ℕ → Lexer → Token × Lexer
unfolding redirection
lex_less s st =
    if next_is b'>' s
    then (if next_is b'>' (drop 1 s)
        then redirection (codes "%open-append") 0 (drop 2 s) st
        else redirection (codes "%open-write") 0 (drop 1 s) st)
    else if next_is b'<' s
    then (if next_is b'<' (drop 1 s)
        then redirection (codes "%here") 0 (drop 2 s) st
        else redirection (codes "%heredoc") 0 (drop 1 s) st)
    else if next_is b'=' s
    then token call_token (drop 1 s) st
    else redirection (codes "%open") 0 s st

-- `case '>'`
unfoldable pub lex_greater : List ℕ → Lexer → Token × Lexer
unfolding redirection
lex_greater s st =
    if next_is b'>' s
    then (if next_is b'<' (drop 1 s)
        then redirection (codes "%open-append") 1 (drop 2 s) st
        else redirection (codes "%append") 1 (drop 1 s) st)
    else if next_is b'<' s
    then redirection (codes "%open-create") 1 (drop 1 s) st
    else redirection (codes "%create") 1 s st

abbrev pub is_real_word : WordState → Bool
is_real_word real_word_state = true
is_real_word non_word_state = false
is_real_word key_word_state = false

-- The cases of the switch that no caret comes before.
unfoldable pub lex_operator : ℕ → List ℕ → Lexer → Token × Lexer
unfolding lex_comment lex_newline getfds lex_pipe lex_less lex_greater
lex_operator c s st =
    let none_left = record st { w = non_word_state } in
    if c == b'#'
    then lex_comment s st
    else if c == 10
    then lex_newline s st
    else if c == b'('
    then token (if is_real_word st.w then sub_token else char c) s none_left
    else if c == b'&'
    then (if next_is b'&' s then token andand (drop 1 s) none_left else token (char c) s none_left)
    else if c == b'|'
    then (if next_is b'|' s
        then token oror (drop 1 s) none_left
        else lex_pipe (getfds s 1 (fd 0)) none_left)
    else if c == b'<'
    then lex_less s st
    else if c == b'>'
    then lex_greater s st
    else token (char c) s none_left

-- The switch on a character `c` that starts no word.
unfoldable pub lex_special : Ctypes → ℕ → List ℕ → Lexer → Token × Lexer
unfolding insert_free_caret lex_quoted quoted_string lex_backslash lex_dollar lex_operator
lex_special ct c s st =
    let caret = insert_free_caret (c ∷ s) st in
    if c == b'!'
    then caret (token (char c) s (record st { w = key_word_state }))
    else if c == b'`'
    then caret (if next_is b'`' s then token backback (drop 1 s) st else token (char c) s st)
    else if c == b'$'
    then caret (lex_dollar s st)
    else if (c == b'\'') || (c == b'"')
    then caret (lex_quoted (quoted_string c s) st)
    else if c == b'\\'
    then lex_backslash ct s st
    else lex_operator c s st

-- Behind the blanks.
unfoldable pub lex_token : Ctypes → Meta → List ℕ → Lexer → Token × Lexer
unfolding interactive_ctrl_c lex_word lex_special is_meta
lex_token ct meta [] st = (endfile, st)
lex_token ct meta (c ∷ s) st =
    if c == 0
    then interactive_ctrl_c (record st { input = s })
    else if not (is_meta meta c)
    then lex_word meta c s st
    else lex_special ct c s st

-- `if (newline)`
unfoldable pub begin_line : Lexer → Lexer
unfolding print_prompt2
begin_line st =
    if st.newline
    then record (print_prompt2 1 (record st { lineno = st.lineno - 1 })) { newline = false }
    else st

unfoldable pub yylex : Ctypes → Lexer → Token × Lexer
unfolding begin_line skip_blanks lex_token
yylex ct st =
    if st.goterror
    then (nl, record st { goterror = false })
    else let begun = begin_line (record st { dollar = false }) in
      let skipped = skip_blanks begun.input begun in
      lex_token ct (if st.dollar then dollar_meta else non_word_meta) skipped.input skipped

-- `inityy`; the buffer has no counterpart.
unfoldable pub inityy : Lexer → Lexer
inityy st = record st { newline = false; w = non_word_state; dollar = false }
