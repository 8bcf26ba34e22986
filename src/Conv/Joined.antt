-- ===== src/Conv/Joined.antt =====
-- src/conv.c and src/token.c: the pieces of a printed string, and what follows each of them.
use desh.Common.{
  ℕ, Bool, true, false, ◌&&◌, ◌||◌, not, List, [], ◌∷◌, ◌++◌, ◌==◌, ltb, Str, arith, ◌≡◌, refl, ◌<◌,
  sym, subst, append-nil,
}
use desh.Token.State.{qword, real_word_state, non_word_state, argument_non_word, non_word}
use desh.Token.Scan.{closed, push, quoted_string}
use desh.Token.Escape.{Ctypes, isodigit}
use desh.Conv.Quote.{escape_name}
use desh.Token.Yylex.{yylex}
use desh.Conv.Reads.{Reads, last_piece, next_piece, sword}
use desh.Conv.Pieces.{at, yylex-quote, yylex-caret, yylex-escape}

-- A backslash in quotes stands for itself before a byte that is in the quotes too and is no quote.
unfoldable pub behind_backslash : (ℕ → Bool) → Str → Bool
behind_backslash isprint [] = false
behind_backslash isprint (d ∷ s) = isprint d && not (d == b'\'')

-- Bytes, with such a byte behind each backslash.
unfoldable pub readable : (ℕ → Bool) → Str → Bool
unfolding behind_backslash
readable isprint [] = true
readable isprint (c ∷ s) =
    (ltb 0 c && ltb c 256) && (not (c == b'\\') || behind_backslash isprint s) && readable isprint s

-- A byte that ends a word and is no quote and no brace.
unfoldable pub ends_word : ℕ → Bool
unfolding argument_non_word
ends_word e = argument_non_word e && not (e == b'\'') && not (e == b'{')

pub ends_word-isodigit : (e : ℕ) → ends_word e ≡ true → isodigit e ≡ false
unfolding ends_word argument_non_word non_word
ends_word-isodigit e h = ground arith

pub ends_word-quote : (e : ℕ) → ends_word e ≡ true → (e == b'\'') ≡ false
unfolding ends_word
ends_word-quote e h = ground arith

-- A byte in quotes that stands for itself.
pub quoted_string-byte :
    (c : ℕ) (s : List ℕ)
    → (c == b'\'') ≡ false
    → (c == b'\\') ≡ false
    → (c == 0) ≡ false
    → (c == 10) ≡ false
    → quoted_string b'\'' (c ∷ s) ≡ push c 0 (quoted_string b'\'' s)
unfolding quoted_string
quoted_string-byte c [] h k z l = rw h (rw k (rw z (rw l refl)))
quoted_string-byte c (d ∷ s) h k z l = rw h (rw k (rw z (rw l refl)))

-- A backslash in quotes that stands for itself.
pub quoted_string-backslash :
    (d : ℕ) (s : List ℕ)
    → (d == b'\'') ≡ false
    → (d == 10) ≡ false
    → quoted_string b'\'' (b'\\' ∷ d ∷ s) ≡ push b'\\' 0 (quoted_string b'\'' (d ∷ s))
unfolding quoted_string
quoted_string-backslash d s h k = rw k (rw h refl)

module _ (ct : Ctypes) (n : ℕ) (b : Bool) (ms : List Str) (e : ℕ) (r : List ℕ) where
  -- What is left behind a piece: the end, or a caret and the pieces of the rest of the string.
  pub data Continues : Str → List ℕ → Type 0 where
    ended : Continues [] (e ∷ r)
    joined :
        {t : Str} {x : List ℕ}
        → Reads ct (at n b ms non_word_state x) t (at n b ms real_word_state (e ∷ r))
        → Continues t (b'^' ∷ x)

  -- In quotes: a first part up to the end of the quotes, and the rest.
  unfoldable pub InQuotes : Str → List ℕ → Type 0
  InQuotes t x =
      (p : Str) × (rest : Str) × (left : List ℕ) × (t ≡ p ++ rest)
      × (quoted_string b'\'' x ≡ closed p 0 left)
      × Continues rest left

  -- A piece, with what follows.
  piece-Reads :
      (x left : List ℕ) (p rest : Str)
      → yylex ct (at n b ms non_word_state x) ≡ (qword p, at n b ms real_word_state left)
      → Continues rest left
      → Reads ct (at n b ms non_word_state x) (p ++ rest) (at n b ms real_word_state (e ∷ r))
  unfolding sword
  piece-Reads x left p rest h ended =
      subst (λ s. Reads ct (at n b ms non_word_state x) s (at n b ms real_word_state (e ∷ r)))
        (sym (append-nil p)) (last_piece (qword p) h refl)
  piece-Reads x left p rest h (joined next) =
      next_piece (qword p) h refl (yylex-caret ct n b ms _) next

  pub quotes-Reads :
      (t : Str) (x : List ℕ)
      → InQuotes t x
      → Reads ct (at n b ms non_word_state (b'\'' ∷ x)) t (at n b ms real_word_state (e ∷ r))
  unfolding InQuotes
  quotes-Reads t x (p, rest, left, split, h, next) =
      subst
        (λ s. Reads ct (at n b ms non_word_state (b'\'' ∷ x)) s (at n b ms real_word_state (e ∷ r)))
        (sym split) (piece-Reads (b'\'' ∷ x) left p rest (yylex-quote ct n b ms x left p h) next)

  module _ (end : ends_word e ≡ true) where
    pub escape-Reads :
        (c : ℕ) (t : Str) (z : List ℕ)
        → 0 < c
        → c < 256
        → Continues t z
        → Reads ct
            (at n b ms non_word_state (b'\\' ∷ (escape_name c ++ z)))
            (c ∷ t)
            (at n b ms real_word_state (e ∷ r))
    escape-Reads c t z p q ended =
        piece-Reads _ (e ∷ r) (c ∷ []) []
          (yylex-escape ct n b ms c e r p q (ends_word-isodigit e end)) ended
    escape-Reads c t z p q (joined {x = x} next) =
        piece-Reads _ (b'^' ∷ x) (c ∷ []) t (yylex-escape ct n b ms c b'^' x p q refl) (joined next)
