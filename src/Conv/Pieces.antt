-- ===== src/Conv/Pieces.antt =====
-- src/token.c: calls of `yylex` on what src/conv.c prints.
use desh.Common.{
  ℕ, Bool, false, List, [], ◌∷◌, ◌++◌, ◌==◌, Str, ◌≡◌, refl, ap, ◌∙◌, ◌<◌, sym, subst,
}
use desh.Token.State.{
  Lexer, WordState, char, qword, real_word_state, non_word_state, non_word, non_word_meta, is_meta,
  insert_free_caret, print_prompt2,
}
use desh.Token.Scan.{closed, quoted_string}
use desh.Token.Escape.{Ctypes, isodigit}
use desh.Token.Word.{skip_blanks, is_blank}
use desh.Token.Yylex.{yylex, lex_token, lex_special, lex_quoted, begin_line}
use desh.Conv.Quote.{escape_name}
use desh.Conv.Octal.{escape_name-read, escape_name_head}

-- The lexer between two tokens of a line, with no error behind it.
unfoldable pub at : ℕ → Bool → List Str → WordState → List ℕ → Lexer
at n b ms w i = record {
  w = w;
  newline = false;
  goterror = false;
  dollar = false;
  input = i;
  lineno = n;
  is_prompt2 = b;
  messages = ms;
}

-- A token starts behind no blank.
pub skip_blanks_stop :
    (c : ℕ) (s : List ℕ) (st : Lexer)
    → is_blank c ≡ false
    → (c == b'\\') ≡ false
    → skip_blanks (c ∷ s) st ≡ record st { input = c ∷ s }
unfolding skip_blanks
skip_blanks_stop c [] st h k = rw h refl
skip_blanks_stop c (d ∷ s) st h k = rw h (rw k refl)

skip_blanks_escape :
    (y : ℕ) (x : List ℕ) (st : Lexer)
    → (y == 10) ≡ false
    → skip_blanks (b'\\' ∷ y ∷ x) st ≡ record st { input = b'\\' ∷ y ∷ x }
unfolding skip_blanks
skip_blanks_escape y x st h = rw h refl

module _ (ct : Ctypes) (n : ℕ) (b : Bool) (ms : List Str) where
  pub yylex-token :
      (w : WordState) (s : List ℕ)
      → skip_blanks s (at n b ms w s) ≡ at n b ms w s
      → yylex ct (at n b ms w s) ≡ lex_token ct non_word_meta s (at n b ms w s)
  unfolding yylex at begin_line
  yylex-token w s h = ap (λ st. lex_token ct non_word_meta st.input st) h

  -- The quote that opens a string.
  pub yylex-quote :
      (s left : List ℕ) (t : Str)
      → quoted_string b'\'' s ≡ closed t 0 left
      → yylex ct (at n b ms non_word_state (b'\'' ∷ s)) ≡ (qword t, at n b ms real_word_state left)
  unfolding at lex_token lex_special is_meta non_word insert_free_caret lex_quoted print_prompt2
  yylex-quote s left t h =
      yylex-token non_word_state (b'\'' ∷ s) (skip_blanks_stop b'\'' s _ refl refl)
      ∙ ap (λ q. lex_quoted q (at n b ms non_word_state (b'\'' ∷ s))) h

  -- The caret between two pieces.
  pub yylex-caret :
      (s : List ℕ)
      → yylex ct (at n b ms real_word_state (b'^' ∷ s)) ≡ (char b'^', at n b ms non_word_state s)
  unfolding at lex_token lex_special is_meta non_word
  yylex-caret s = yylex-token real_word_state (b'^' ∷ s) (skip_blanks_stop b'^' s _ refl refl)

  -- An escape.
  pub yylex-escape :
      (c e : ℕ) (s : List ℕ)
      → 0 < c
      → c < 256
      → isodigit e ≡ false
      → yylex ct (at n b ms non_word_state (b'\\' ∷ (escape_name c ++ (e ∷ s))))
        ≡ (qword (c ∷ []), at n b ms real_word_state (e ∷ s))
  unfolding at lex_token lex_special is_meta non_word
  yylex-escape c e s p q k =
      yylex-token non_word_state (b'\\' ∷ (escape_name c ++ (e ∷ s))) (
        let (y, x, h, d) = escape_name_head c q in
        subst
          (λ z.
            skip_blanks (b'\\' ∷ (z ++ (e ∷ s))) (at n b ms non_word_state (b'\\' ∷ (z ++ (e ∷ s))))
            ≡ at n b ms non_word_state (b'\\' ∷ (z ++ (e ∷ s))))
          (sym h) (skip_blanks_escape y (x ++ (e ∷ s)) _ d))
      ∙ escape_name-read ct c e s (at n b ms non_word_state (b'\\' ∷ (escape_name c ++ (e ∷ s))))
          refl p q k
