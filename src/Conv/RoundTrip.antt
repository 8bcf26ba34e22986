-- ===== src/Conv/RoundTrip.antt =====
-- src/conv.c and src/token.c: what is printed in quotes is read back.
use desh.Common.{
  ℕ, Bool, true, false, ◌||◌, not, List, [], ◌∷◌, ◌++◌, ◌==◌, Str, arith, ◌≡◌, refl, ap, ◌∙◌, ◌<◌,
  sym, subst, append_assoc, Bool-cases, inl, inr, if_split, ltb→lt,
}
use desh.Token.State.{real_word_state, non_word_state, between, WordState}
use desh.Token.Scan.{closed, push, quoted_string}
use desh.Token.Escape.{Ctypes}
use desh.Conv.Quote.{
  quoteit, quoted_state, unquoted_state, begin_state, escape_name, quote_byte, sconv, is_nul,
  needs_quotes,
}
use desh.Conv.Reads.{Reads, is_comparison}
use desh.Conv.Pieces.{at}
use desh.Conv.Plain.{plain-Reads}
use desh.Conv.Joined.{
  behind_backslash, readable, ends_word, ends_word-quote, quoted_string-byte,
  quoted_string-backslash, Continues, ended, joined, InQuotes, quotes-Reads, escape-Reads,
}

readable-byte :
    (isprint : ℕ → Bool) (c : ℕ) (s : Str) → readable isprint (c ∷ s) ≡ true → (0 < c) × (c < 256)
unfolding readable
readable-byte isprint c s h = (ground (arith, ltb→lt 0 c), ground (arith, ltb→lt c 256))

readable-rest :
    (isprint : ℕ → Bool) (c : ℕ) (s : Str)
    → readable isprint (c ∷ s) ≡ true
    → readable isprint s ≡ true
unfolding readable
readable-rest isprint c s h = ground arith

readable-behind :
    (isprint : ℕ → Bool) (c : ℕ) (s : Str)
    → readable isprint (c ∷ s) ≡ true
    → (c == b'\\') ≡ true
    → behind_backslash isprint s ≡ true
unfolding readable
readable-behind isprint c s h k = ground arith

quoted_string-quote :
    (c : ℕ) (s : List ℕ)
    → (c == b'\'') ≡ true
    → quoted_string b'\'' (c ∷ c ∷ s) ≡ push c 0 (quoted_string b'\'' s)
unfolding quoted_string
quoted_string-quote c s h =
    subst (λ a. quoted_string b'\'' (a ∷ a ∷ s) ≡ push a 0 (quoted_string b'\'' s)) (sym equal) refl
  where
    equal : c ≡ b'\''
    equal = ground arith

-- The quote at the end.
quoted_string-end :
    (e : ℕ) (r : List ℕ)
    → (e == b'\'') ≡ false
    → quoted_string b'\'' (b'\'' ∷ e ∷ r) ≡ closed [] 0 (e ∷ r)
unfolding quoted_string
quoted_string-end e r h = rw h refl

module _ (isprint : ℕ → Bool) (printable : (c : ℕ) → isprint c ≡ true → between 32 126 c ≡ true)
    (ct : Ctypes) (n : ℕ) (b : Bool) (ms : List Str) (e : ℕ) (r : List ℕ)
    (end : ends_word e ≡ true) where
  -- In the quotes, behind `t`.
  quoted_rest : Str → List ℕ
  quoted_rest t = quoteit isprint quoted_state t ++ (e ∷ r)

  -- Outside of the quotes.
  unquoted_rest : Str → List ℕ
  unquoted_rest t = quoteit isprint unquoted_state t ++ (e ∷ r)

  -- One more byte in the quotes.
  push-InQuotes :
      (c : ℕ) (t : Str) (x y : List ℕ)
      → quoted_string b'\'' y ≡ push c 0 (quoted_string b'\'' x)
      → InQuotes ct n b ms e r t x
      → InQuotes ct n b ms e r (c ∷ t) y
  unfolding InQuotes
  push-InQuotes c t x y h (p, rest, left, split, k, next) =
      (c ∷ p, rest, left, ap (λ s. c ∷ s) split, h ∙ ap (push c 0) k, next)

  -- A backslash before what is in the quotes too.
  backslash-quoted_rest :
      (t : Str)
      → behind_backslash isprint t ≡ true
      → quoted_string b'\'' (b'\\' ∷ quoted_rest t)
        ≡ push b'\\' 0 (quoted_string b'\'' (quoted_rest t))
  unfolding quoted_rest quoteit behind_backslash
  backslash-quoted_rest [] h = absurd (ground arith)
  backslash-quoted_rest (d ∷ t) h =
      rw prints (rw no_quote (quoted_string-backslash d _ no_quote no_newline))
    where
      prints : isprint d ≡ true
      prints = ground arith

      no_quote : (d == b'\'') ≡ false
      no_quote = ground arith

      no_newline : (d == 10) ≡ false
      no_newline = ground (arith, printable d prints)

  byte-InQuotes :
      (c : ℕ) (t : Str)
      → isprint c ≡ true
      → readable isprint (c ∷ t) ≡ true
      → InQuotes ct n b ms e r t (quoted_rest t)
      → InQuotes ct n b ms e r (c ∷ t) (quote_byte c ++ quoted_rest t)
  byte-InQuotes c t p h k = elim (Bool-cases (c == b'\'')) [
    | inl q ↦ rw q (push-InQuotes c t _ _ (quoted_string-quote c (quoted_rest t) q) k)
    | inr q ↦ elim (Bool-cases (c == b'\\')) [
      | inl l ↦ rw q (
          push-InQuotes c t _ _
            (subst
              (λ a.
                quoted_string b'\'' (a ∷ quoted_rest t)
                ≡ push a 0 (quoted_string b'\'' (quoted_rest t)))
              (sym (equal b'\\' l)) (backslash-quoted_rest t (readable-behind isprint c t h l)))
            k)
      | inr l ↦ rw q (
          push-InQuotes c t _ _
            (quoted_string-byte c (quoted_rest t) q l (ground (arith, printable c p))
              (ground (arith, printable c p)))
            k)
    ]
  ]
    where
      equal : (a : ℕ) → (c == a) ≡ true → c ≡ a
      equal a j = ground arith

  -- A byte that is printed as an escape.
  escape_piece :
      (c : ℕ) (t : Str)
      → readable isprint (c ∷ t) ≡ true
      → Continues ct n b ms e r t (unquoted_rest t)
      → Reads ct
          (at n b ms non_word_state
            ((b'\\' ∷ (escape_name c ++ quoteit isprint unquoted_state t)) ++ (e ∷ r)))
          (c ∷ t)
          (at n b ms real_word_state (e ∷ r))
  unfolding unquoted_rest
  escape_piece c t h next =
      let (low, high) = readable-byte isprint c t h in
      rw (append_assoc (escape_name c) (quoteit isprint unquoted_state t) (e ∷ r))
        (escape-Reads ct n b ms e r end c t (unquoted_rest t) low high next)

  -- A byte that is printed in quotes.
  quotes_piece :
      (c : ℕ) (t : Str)
      → isprint c ≡ true
      → readable isprint (c ∷ t) ≡ true
      → InQuotes ct n b ms e r t (quoted_rest t)
      → InQuotes ct n b ms e r (c ∷ t) ((quote_byte c ++ quoteit isprint quoted_state t) ++ (e ∷ r))
  unfolding quoted_rest
  quotes_piece c t p h next =
      rw (append_assoc (quote_byte c) (quoteit isprint quoted_state t) (e ∷ r))
        (byte-InQuotes c t p h next)

  both :
      (t : Str)
      → readable isprint t ≡ true
      → InQuotes ct n b ms e r t (quoted_rest t) × Continues ct n b ms e r t (unquoted_rest t)
  unfolding quoted_rest unquoted_rest quoteit InQuotes quoted_string
  both [] h = (([], [], e ∷ r, refl, quoted_string-end e r (ends_word-quote e end), ended), ended)
  both (c ∷ t) h =
      let (inside, outside) = both t (readable-rest isprint c t h) in
      elim (Bool-cases (isprint c)) [
        | inl p ↦ rw p (
          quotes_piece c t p h inside,
          joined (quotes-Reads ct n b ms e r (c ∷ t) _ (quotes_piece c t p h inside)),
        )
        | inr p ↦ rw p (
          ([], c ∷ t, _, refl, refl, joined (escape_piece c t h outside)),
          joined (escape_piece c t h outside),
        )
      ]

  pub quoteit-Reads :
      (t : Str)
      → readable isprint t ≡ true
      → Reads ct
          (at n b ms non_word_state (quoteit isprint begin_state t ++ (e ∷ r)))
          t
          (at n b ms real_word_state (e ∷ r))
  unfolding quoteit quoted_rest
  quoteit-Reads [] h = quotes-Reads ct n b ms e r [] _ ((both [] h).0)
  quoteit-Reads (c ∷ t) h =
      let (inside, outside) = both t (readable-rest isprint c t h) in
      elim (Bool-cases (isprint c)) [
        | inl p ↦ rw p (quotes-Reads ct n b ms e r (c ∷ t) _ (quotes_piece c t p h inside))
        | inr p ↦ rw p (escape_piece c t h outside)
      ]

  -- What `%S` prints for a string `t`, before a byte `e` that ends words, is read back: calls of
  -- `yylex` from a state between two tokens give pieces that the grammar joins to `t`, and leave
  -- what starts with `e`. The bytes of `t` are from 1 to 255, each backslash in it has a byte behind
  -- it that can be printed and is no quote, and `t` is no word for a comparison or the flag `#` is
  -- set. What can be printed is taken to lie between 32 and 126.
  pub sconv-Reads :
      (altform : Bool) (t : Str)
      → readable isprint t ≡ true
      → (altform || not (is_comparison t)) ≡ true
      → (w : WordState) × Reads ct
          (at n b ms non_word_state (sconv isprint altform t ++ (e ∷ r)))
          t
          (at n b ms w (e ∷ r))
  unfolding sconv
  sconv-Reads altform t h k =
      if_split
        (λ x.
          (w : WordState) × Reads ct (at n b ms non_word_state (x ++ (e ∷ r))) t
            (at n b ms w (e ∷ r)))
        ((altform || is_nul t) || needs_quotes t) _ _ (λ j. (real_word_state, quoteit-Reads t h))
        (λ j. plain t k j)
    where
      plain :
          (s : Str)
          → (altform || not (is_comparison s)) ≡ true
          → ((altform || is_nul s) || needs_quotes s) ≡ false
          → (w : WordState) × Reads ct
              (at n b ms non_word_state (s ++ (e ∷ r)))
              s
              (at n b ms w (e ∷ r))
      plain [] l j = absurd (ground arith)
      plain (c ∷ s) l j = plain-Reads ct n b ms e r c s end (ground arith) (ground arith)
