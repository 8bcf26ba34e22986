-- ===== src/Token/State.antt =====
-- src/token.c: the static variables, the tables of characters and the tokens. The input that is
-- left is a list of bytes, with EOF at its end; the byte 0 is an interrupt from the keyboard.
use desh.Common.{
  ℕ, zero, suc, ◌+◌, Bool, true, false, ◌&&◌, ◌||◌, not, List, [], ◌∷◌, ◌++◌, ◌==◌, leb,
  if◌then◌else◌, Str, codes,
}

pub data WordState : Type 0 where
  non_word_state real_word_state key_word_state : WordState

-- `messages` are the calls of `yyerror`.
pub record Lexer : Type 0 where
  pub w : WordState
  pub newline : Bool
  pub goterror : Bool
  pub dollar : Bool
  pub input : List ℕ
  pub lineno : ℕ
  pub is_prompt2 : Bool
  pub messages : List Str

-- The second number of a redirection: CLOSED, DEFAULT or a descriptor.
pub data FdEnd : Type 0 where
  closed_fd default_fd : FdEnd
  fd : ℕ → FdEnd

-- The tokens, with what `yylval` holds; `char` is a token that is its own character.
pub data Token : Type 0 where
  endfile nl error_token : Token
  char : ℕ → Token
  word qword : Str → Token
  fn_token for_token local_token let_token extract_token closure_token call_token : Token
  lt_token le_token gt_token ge_token eq_token ne_token : Token
  backback count_token flat_token prim_token andand oror sub_token : Token
  pipe : ℕ → ℕ → Token
  dup : ℕ → FdEnd → Token
  redir : Str → ℕ → Token

abbrev pub member : ℕ → Str → Bool
member c [] = false
member c (x ∷ s) = (c == x) || member c s

-- Where the table `non_word` holds 1.
unfoldable pub non_word : ℕ → Bool
non_word c = (c == 0) || (c == 9) || (c == 10) || member c (codes " !\"#$&'();<=>\\^`{|}")

-- `=` is allowed in arguments.
unfoldable pub argument_non_word : ℕ → Bool
unfolding non_word
argument_non_word c = non_word c && not (c == b'=')

abbrev pub between : ℕ → ℕ → ℕ → Bool
between lo hi c = leb lo c && leb c hi

-- Where `dollar_non_word` holds 0: letters, digits, `%`, `*`, `-` and `_`.
unfoldable pub dollar_non_word : ℕ → Bool
dollar_non_word c =
    not
      (between b'a' b'z' c || between b'A' b'Z' c || between b'0' b'9' c || member c (codes "%*-_"))

-- `meta`, which points to one of the tables
pub data Meta : Type 0 where
  non_word_meta argument_meta dollar_meta : Meta

unfoldable pub is_meta : Meta → ℕ → Bool
unfolding non_word argument_non_word dollar_non_word
is_meta non_word_meta c = non_word c
is_meta argument_meta c = argument_non_word c
is_meta dollar_meta c = dollar_non_word c

-- `n` calls of `print_prompt2`
unfoldable pub print_prompt2 : ℕ → Lexer → Lexer
print_prompt2 zero st = st
print_prompt2 (suc n) st = record st { lineno = st.lineno + suc n; is_prompt2 = true }

-- The loop of `scanerror`.
unfoldable pub skip_line : List ℕ → List ℕ
skip_line [] = []
skip_line (c ∷ s) = if c == 10 then s else skip_line s

unfoldable pub scanerror : Str → Lexer → Lexer
unfolding skip_line
scanerror message st = record st {
  input = skip_line st.input;
  goterror = true;
  messages = st.messages ++ message ∷ [];
}

-- `interactive_ctrl_c`
unfoldable pub interactive_ctrl_c : Lexer → Token × Lexer
unfolding scanerror
interactive_ctrl_c st = (error_token, scanerror [] (record st { w = non_word_state }))

abbrev pub is_non_word_state : WordState → Bool
is_non_word_state non_word_state = true
is_non_word_state real_word_state = false
is_non_word_state key_word_state = false

-- `InsertFreeCaret()`, where `input` is what is left with the character pushed back.
unfoldable pub insert_free_caret : List ℕ → Lexer → Token × Lexer → Token × Lexer
insert_free_caret input st next =
    if is_non_word_state st.w
    then next
    else (char b'^', record st { w = non_word_state; input = input })
