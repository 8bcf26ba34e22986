-- ===== src/Token/Tests.antt =====
-- Runs of the lexer, and the theorems at concrete inputs.
use desh.Common.{◌≡◌, refl, false, ◌&&◌, ◌||◌, leb, [], ℕ, Str, codes, ◌≤◌}
use desh.Token.State.{
  Lexer, Token, char, word, qword, pipe, dup, redir, closed_fd, error_token, non_word_state,
}
use desh.Token.Escape.{Ctypes}
use desh.Token.Yylex.{yylex}
use desh.Token.Progress.{Progress, weight}
use desh.Token.Termination.{yylex-Progress, calls, EndsAt, calls_end}

abbrev ascii_types : Ctypes
ascii_types = record {
  isxdigit =
      λ c. (leb b'0' c && leb c b'9') || (leb b'a' c && leb c b'f') || (leb b'A' c && leb c b'F');
  isdigit = λ c. leb b'0' c && leb c b'9';
  islower = λ c. leb b'a' c && leb c b'z';
  isalnum =
      λ c. (leb b'A' c && leb c b'Z') || (leb b'a' c && leb c b'z') || (leb b'0' c && leb c b'9');
}

abbrev line : Str → Lexer
line s = record {
  w = non_word_state;
  newline = false;
  goterror = false;
  dollar = false;
  input = s;
  lineno = 1;
  is_prompt2 = false;
  messages = [];
}

-- The token that call number `n` gives.
abbrev token_at : ℕ → Str → Token
token_at n s = (yylex ascii_types (calls ascii_types n (line s))).0

tokens_command : token_at 0 (codes "echo --a=b $x^'it''s'") ≡ word (codes "echo")
unfolding yylex calls
tokens_command = refl

tokens_argument : token_at 1 (codes "echo --a=b $x^'it''s'") ≡ word (codes "--a=b")
unfolding yylex calls
tokens_argument = refl

tokens_quoted : token_at 5 (codes "echo --a=b $x^'it''s'") ≡ qword (codes "it's")
unfolding yylex calls
tokens_quoted = refl

tokens_free_caret : token_at 1 (codes "a$b") ≡ char b'^'
unfolding yylex calls
tokens_free_caret = refl

tokens_pipe : token_at 1 (codes "a |[2=3] b") ≡ pipe 2 3
unfolding yylex calls
tokens_pipe = refl

tokens_close : token_at 1 (codes "a >[2=] b") ≡ dup 2 closed_fd
unfolding yylex calls
tokens_close = refl

tokens_append : token_at 1 (codes "a >>[12] b") ≡ redir (codes "%append") 12
unfolding yylex calls
tokens_append = refl

tokens_escape : token_at 0 (codes "\\x41g") ≡ qword (codes "A")
unfolding yylex calls
tokens_escape = refl

tokens_error : token_at 1 (codes "a |[2=] b") ≡ error_token
unfolding yylex calls
tokens_error = refl

yylex-Progress_example :
    Progress ascii_types (weight (line (codes "a$b"))) (yylex ascii_types (line (codes "a$b")))
yylex-Progress_example = yylex-Progress ascii_types (line (codes "a$b"))

calls_end_example :
    (n : ℕ) × (n ≤ weight (line (codes "a$b"))) × EndsAt ascii_types (line (codes "a$b")) n
calls_end_example = calls_end ascii_types (line (codes "a$b"))
