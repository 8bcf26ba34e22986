-- ===== src/Token/Word.antt =====
-- src/token.c: the words and the keywords of `yylex`, and the blanks before a token.
use desh.Common.{
  ℕ, Bool, false, ◌&&◌, ◌||◌, List, [], ◌∷◌, ◌==◌, if◌then◌else◌, Str, codes, streq, none, some,
  Option,
}
use desh.Token.State.{
  Lexer, Token, Meta, non_word_meta, argument_meta, dollar_meta, non_word_state, key_word_state,
  real_word_state, insert_free_caret, print_prompt2, char, word, fn_token, for_token, local_token,
  let_token, extract_token, closure_token, call_token, lt_token, le_token, gt_token, ge_token,
  eq_token, ne_token,
}
use desh.Token.Scan.{word_bytes}

-- Whether the next byte is `c`.
abbrev pub next_is : ℕ → List ℕ → Bool
next_is c [] = false
next_is c (d ∷ s) = d == c

-- The keywords of more than one character.
unfoldable pub keyword : Str → Option Token
keyword buf =
    if streq buf (codes "fn")
    then some fn_token
    else if streq buf (codes "for")
    then some for_token
    else if streq buf (codes "local")
    then some local_token
    else if streq buf (codes "let")
    then some let_token
    else if streq buf (codes "~~")
    then some extract_token
    else if streq buf (codes "%closure")
    then some closure_token
    else if streq buf (codes ":lt")
    then some lt_token
    else if streq buf (codes ":le")
    then some le_token
    else if streq buf (codes ":gt")
    then some gt_token
    else if streq buf (codes ":ge")
    then some ge_token
    else if streq buf (codes ":eq")
    then some eq_token
    else if streq buf (codes ":ne")
    then some ne_token
    else none

-- What a buffer of one character, or of more, is; `input` starts with the byte behind the word.
unfoldable pub special_word : Str → List ℕ → Option Token
unfolding keyword
special_word [] input = none
special_word (k ∷ []) input =
    if (k == b'@') || (k == b'~')
    then some (char k)
    else if next_is b'{' input
    then some call_token
    else none
special_word (k ∷ l ∷ buf) input = keyword (k ∷ l ∷ buf)

-- The word `buf`, or what it means, with `input` what is left.
unfoldable pub word_token : Str → List ℕ → Lexer → Token × Lexer
unfolding special_word
word_token buf input st = elim (special_word buf input) [
  | some t ↦ (t, record st { w = key_word_state; input = input })
  | none ↦ (word buf, record st { w = real_word_state; input = input })
]

-- `if (meta == non_word && c == '-') meta = argument_non_word`
abbrev pub word_meta : ℕ → Meta → Meta
word_meta c non_word_meta = if c == b'-' then argument_meta else non_word_meta
word_meta c argument_meta = argument_meta
word_meta c dollar_meta = dollar_meta

-- A word that starts with `c`, which is no character of `meta`.
unfoldable pub lex_word : Meta → ℕ → List ℕ → Lexer → Token × Lexer
unfolding insert_free_caret word_token word_bytes
lex_word meta c s st =
    let (rest, left) = word_bytes (word_meta c meta) s in
    insert_free_caret (c ∷ s) st (word_token (c ∷ rest) left st)

abbrev pub is_blank : ℕ → Bool
is_blank c = (c == b' ') || (c == 9)

-- From `top` to the first byte of a token: the blanks, and the lines that a backslash continues,
-- which are read as a blank and go back to `top`.
unfoldable pub skip_blanks : List ℕ → Lexer → Lexer
unfolding print_prompt2
skip_blanks [] st = record st { input = [] }
skip_blanks (c ∷ []) st =
    if is_blank c
    then record st { w = non_word_state; input = [] }
    else record st { input = c ∷ [] }
skip_blanks (c ∷ d ∷ s) st =
    let blank = skip_blanks (d ∷ s) (record st { w = non_word_state }) in
    let continued = skip_blanks s (record (print_prompt2 1 st) { w = non_word_state }) in
    if is_blank c
    then blank
    else if (c == b'\\') && (d == 10)
    then continued
    else record st { input = c ∷ d ∷ s }
