-- ===== src/Conv/Reads.antt =====
-- src/parse.y: a word, as the grammar joins it from the tokens of src/token.c.
use desh.Common.{Str, codes, Option, some, none, ◌≡◌, ◌++◌, ◌==◌, if◌then◌else◌, streq, ◌||◌, Bool}
use desh.Token.State.{
  Lexer, Token, endfile, nl, error_token, char, word, qword, fn_token, for_token, local_token,
  let_token, extract_token, closure_token, call_token, lt_token, le_token, gt_token, ge_token,
  eq_token, ne_token, backback, count_token, flat_token, prim_token, andand, oror, sub_token, pipe,
  dup, redir,
}
use desh.Token.Escape.{Ctypes}
use desh.Token.Yylex.{yylex}

-- The string of a token that is a `param` or a `keyword` of the grammar.
unfoldable pub sword : Token → Option Str
sword (char c) =
    if c == b'!' then some (codes "!") else if c == b'~' then some (codes "~") else none
sword (word s) = some s
sword (qword s) = some s
sword fn_token = some (codes "fn")
sword for_token = some (codes "for")
sword local_token = some (codes "local")
sword let_token = some (codes "let")
sword extract_token = some (codes "~~")
sword closure_token = some (codes "%closure")
sword endfile = none
sword nl = none
sword error_token = none
sword call_token = none
sword lt_token = none
sword le_token = none
sword gt_token = none
sword ge_token = none
sword eq_token = none
sword ne_token = none
sword backback = none
sword count_token = none
sword flat_token = none
sword prim_token = none
sword andand = none
sword oror = none
sword sub_token = none
sword (pipe n m) = none
sword (dup n m) = none
sword (redir cmd n) = none

-- `word : sword | word '^' sword`: from the first state, calls of `yylex` give pieces that `^` joins
-- to the string, and leave the second state.
pub data Reads (ct : Ctypes) : Lexer → Str → Lexer → Type 0 where
  last_piece :
      {st st' : Lexer} {s : Str} (t : Token)
      → yylex ct st ≡ (t, st')
      → sword t ≡ some s
      → Reads ct st s st'
  next_piece :
      {st st₁ st₂ st' : Lexer} {s u : Str} (t : Token)
      → yylex ct st ≡ (t, st₁)
      → sword t ≡ some s
      → yylex ct st₁ ≡ (char b'^', st₂)
      → Reads ct st₂ u st'
      → Reads ct st (s ++ u) st'

-- The words that are tokens of their own, and no `keyword` of the grammar.
unfoldable pub is_comparison : Str → Bool
is_comparison s =
    streq s (codes ":lt")
    || (streq s (codes ":le")
        || (streq s (codes ":gt")
            || (streq s (codes ":ge") || (streq s (codes ":eq") || streq s (codes ":ne")))))
