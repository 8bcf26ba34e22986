-- ===== src/Conv/Tests.antt =====
-- Runs of the printer of strings, and the theorems at concrete inputs.
use desh.Common.{◌≡◌, refl, Bool, true, false, ◌&&◌, ◌||◌, leb, [], ◌∷◌, ◌++◌, ℕ, Str, codes, none}
use desh.Token.State.{Token, WordState, non_word_state, key_word_state, error_token, between}
use desh.Token.Escape.{Ctypes}
use desh.Token.Yylex.{yylex}
use desh.Conv.Quote.{sconv}
use desh.Conv.Reads.{Reads, sword, is_comparison}
use desh.Conv.Pieces.{at}
use desh.Conv.Joined.{ends_word, readable}
use desh.Conv.RoundTrip.{sconv-Reads}
use desh.Conv.Losses.{sconv_comparison}

-- The C locale.
abbrev ascii_printable : ℕ → Bool
ascii_printable c = leb 32 c && leb c 126

abbrev ascii_types : Ctypes
ascii_types = record {
  isxdigit =
      λ c. (leb b'0' c && leb c b'9') || (leb b'a' c && leb c b'f') || (leb b'A' c && leb c b'F');
  isdigit = λ c. leb b'0' c && leb c b'9';
  islower = λ c. leb b'a' c && leb c b'z';
  isalnum =
      λ c. (leb b'A' c && leb c b'Z') || (leb b'a' c && leb c b'z') || (leb b'0' c && leb c b'9');
}

ascii_printable-between : (c : ℕ) → ascii_printable c ≡ true → between 32 126 c ≡ true
ascii_printable-between c h = h

sconv_quotes :
    sconv ascii_printable false (codes "it's" ++ (9 ∷ codes "b")) ≡ codes "'it''s'^\\t^'b'"
unfolding sconv
sconv_quotes = refl

sconv_word : sconv ascii_printable false (codes "word") ≡ codes "word"
unfolding sconv
sconv_word = refl

sconv_empty : sconv ascii_printable false [] ≡ codes "''"
unfolding sconv
sconv_empty = refl

-- A backslash at the end of the string escapes the quote that is meant to close it.
sconv_backslash_test : sconv ascii_printable false (codes "a\\") ≡ codes "'a\\'"
unfolding sconv
sconv_backslash_test = refl

yylex_backslash_test :
    (yylex ascii_types (at 1 false [] non_word_state (codes "'a\\' b"))).0 ≡ error_token
unfolding yylex at
yylex_backslash_test = refl

abbrev text : Str
text = codes "it's" ++ (9 ∷ codes "b")

sconv-Reads_example :
    (w : WordState) × Reads ascii_types
      (at 1 false [] non_word_state (sconv ascii_printable false text ++ (10 ∷ [])))
      text
      (at 1 false [] w (10 ∷ []))
unfolding ends_word readable is_comparison
sconv-Reads_example =
    sconv-Reads ascii_printable ascii_printable-between ascii_types 1 false [] 10 [] refl false text
      refl refl

sconv_comparison_example :
    (t : Token) × (yylex ascii_types
        (at 1 false [] non_word_state (sconv ascii_printable false (codes ":lt") ++ (10 ∷ [])))
      ≡ (t, at 1 false [] key_word_state (10 ∷ [])))
    × (sword t ≡ none)
unfolding ends_word is_comparison
sconv_comparison_example =
    sconv_comparison ascii_printable ascii_types 1 false [] 10 [] refl (codes ":lt") refl
