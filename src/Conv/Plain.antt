-- ===== src/Conv/Plain.antt =====
-- src/conv.c and src/token.c: what is printed without quotes is read back.
use desh.Common.{
  ℕ, Bool, true, false, ◌||◌, List, [], ◌∷◌, ◌++◌, ◌==◌, Str, arith, ◌≡◌, refl, ap, ◌∙◌, sym, subst,
  inl, inr, ◌⊎◌, if◌then◌else◌, if_split, some, none, Option, streq, streq→eq,
}
use desh.Token.State.{
  Token, WordState, char, word, real_word_state, non_word_state, key_word_state, non_word,
  argument_non_word, is_meta, Meta, non_word_meta, argument_meta, insert_free_caret,
}
use desh.Token.Scan.{word_bytes}
use desh.Token.Escape.{Ctypes}
use desh.Token.Word.{lex_word, word_meta, word_token, keyword, special_word, is_blank}
use desh.Token.Yylex.{yylex, lex_token}
use desh.Conv.Quote.{needs_quotes}
use desh.Conv.Reads.{Reads, last_piece, sword, is_comparison}
use desh.Conv.Pieces.{at, yylex-token, skip_blanks_stop}
use desh.Conv.Joined.{ends_word}

-- No keyword, or a token of the grammar for the word itself.
Meant : Str → Option Token → Type 0
Meant buf o = (o ≡ none) ⊎ ((t : Token) × (o ≡ some t) × (sword t ≡ some buf))

keyword_step :
    (buf name : Str) (t : Token) (o : Option Token)
    → sword t ≡ some name
    → Meant buf o
    → Meant buf (if streq buf name then some t else o)
unfolding Meant
keyword_step buf name t o h other =
    if_split (Meant buf) (streq buf name) (some t) o
      (λ b. inr (t, refl, h ∙ ap (λ s. some s) (sym (streq→eq buf name b)))) (λ b. other)

comparison_step :
    (buf name : Str) (t : Token) (o : Option Token)
    → streq buf name ≡ false
    → Meant buf o
    → Meant buf (if streq buf name then some t else o)
comparison_step buf name t o h other = rw h other

keyword-Meant : (buf : Str) → is_comparison buf ≡ false → Meant buf (keyword buf)
unfolding keyword is_comparison sword Meant
keyword-Meant buf h = keyword_step buf _ _ _ refl (
    keyword_step buf _ _ _ refl (
      keyword_step buf _ _ _ refl (
        keyword_step buf _ _ _ refl (
          keyword_step buf _ _ _ refl (
            keyword_step buf _ _ _ refl (
              comparison_step buf _ _ _ (ground arith) (
                comparison_step buf _ _ _ (ground arith) (
                  comparison_step buf _ _ _ (ground arith) (
                    comparison_step buf _ _ _ (ground arith) (
                      comparison_step buf _ _ _ (ground arith)
                        (comparison_step buf _ _ _ (ground arith) (inl refl))))))))))))

or_false : (a b : Bool) → (a || b) ≡ false → (a ≡ false) × (b ≡ false)
or_false a b h = (ground arith, ground arith)

needs_quotes-at : (c : ℕ) → needs_quotes (c ∷ []) ≡ false → (c == b'@') ≡ false
unfolding needs_quotes
needs_quotes-at c q =
    (or_false (non_word c) (c == b'@') ((or_false (non_word c || (c == b'@')) false q).0)).1

tilde-sword :
    (c : ℕ)
    → (c == b'@') ≡ false
    → ((c == b'@') || (c == b'~')) ≡ true
    → sword (char c) ≡ some (c ∷ [])
unfolding sword
tilde-sword c q b = subst (λ a. sword (char a) ≡ some (a ∷ [])) (sym is_tilde) refl
  where
    is_tilde : c ≡ b'~'
    is_tilde = ground arith

special_word-Meant :
    (buf : Str) (e : ℕ) (r : List ℕ)
    → needs_quotes buf ≡ false
    → is_comparison buf ≡ false
    → (e == b'{') ≡ false
    → Meant buf (special_word buf (e ∷ r))
unfolding special_word Meant sword needs_quotes
special_word-Meant [] e r q h k = inl refl
special_word-Meant (c ∷ []) e r q h k =
    if_split (Meant (c ∷ [])) ((c == b'@') || (c == b'~')) _ _
      (λ b. inr (char c, refl, tilde-sword c (needs_quotes-at c q) b)) (λ b. rw k (inl refl))
special_word-Meant (c ∷ d ∷ buf) e r q h k = keyword-Meant (c ∷ d ∷ buf) h

-- The bytes of a word, up to the byte that ends it.
word_bytes-word :
    (meta : Meta) (s : Str) (e : ℕ) (r : List ℕ)
    → ((c : ℕ) → non_word c ≡ false → is_meta meta c ≡ false)
    → is_meta meta e ≡ true
    → needs_quotes s ≡ false
    → word_bytes meta (s ++ (e ∷ r)) ≡ (s, e ∷ r)
unfolding word_bytes needs_quotes
word_bytes-word meta [] e r f h q = rw h refl
word_bytes-word meta (c ∷ s) e r f h q =
    rw plain (ap (λ (w, rest). (c ∷ w, rest)) (word_bytes-word meta s e r f h (ground arith)))
  where
    plain : is_meta meta c ≡ false
    plain = f c (ground arith)

module _ (ct : Ctypes) (n : ℕ) (b : Bool) (ms : List Str) (e : ℕ) (r : List ℕ) where
  -- The word is one token.
  word_token-Reads :
      (s : Str) (i : List ℕ)
      → Meant s (special_word s (e ∷ r))
      → (w : WordState) × (t : Token) × (word_token s (e ∷ r) (at n b ms non_word_state i)
          ≡ (t, at n b ms w (e ∷ r)))
        × (sword t ≡ some s)
  unfolding word_token Meant at sword
  word_token-Reads s i (inl h) = (real_word_state, word s, rw (h, word_token) refl, refl)
  word_token-Reads s i (inr (t, h, k)) = (key_word_state, t, rw (h, word_token) refl, k)

  -- Both tables for a word end it at `e` and at no byte of it.
  word_meta_word :
      (c : ℕ) (s : Str)
      → ends_word e ≡ true
      → needs_quotes s ≡ false
      → word_bytes (word_meta c non_word_meta) (s ++ (e ∷ r)) ≡ (s, e ∷ r)
  unfolding ends_word argument_non_word is_meta
  word_meta_word c s end q =
      if_split (λ meta. word_bytes meta (s ++ (e ∷ r)) ≡ (s, e ∷ r)) (c == b'-') argument_meta
        non_word_meta
        (λ j. word_bytes-word argument_meta s e r (λ a h. ground arith) (ground arith) q)
        (λ j. word_bytes-word non_word_meta s e r (λ a h. h) (ground arith) q)

  -- The call of `yylex` comes to `word_token`.
  pub yylex-word :
      (c : ℕ) (s : Str)
      → ends_word e ≡ true
      → needs_quotes (c ∷ s) ≡ false
      → yylex ct (at n b ms non_word_state ((c ∷ s) ++ (e ∷ r)))
        ≡ word_token (c ∷ s) (e ∷ r) (at n b ms non_word_state ((c ∷ s) ++ (e ∷ r)))
  unfolding lex_token lex_word insert_free_caret at is_meta needs_quotes
  yylex-word c s end q =
      yylex-token ct n b ms non_word_state ((c ∷ s) ++ (e ∷ r))
        (skip_blanks_stop c (s ++ (e ∷ r)) _ not_blank (other b'\\' refl))
      ∙ rw word_byte (
          rw (other 0 refl) (
            ap (λ p. word_token (c ∷ (p.0)) (p.1) (at n b ms non_word_state ((c ∷ s) ++ (e ∷ r))))
              (word_meta_word c s end (ground arith))))
    where
      word_byte : non_word c ≡ false
      word_byte = ground arith

      other : (a : ℕ) → non_word a ≡ true → (c == a) ≡ false
      other a h = ground arith

      not_blank : is_blank c ≡ false
      not_blank = rw (other b' ' refl) (other 9 refl)

  pub plain-Reads :
      (c : ℕ) (s : Str)
      → ends_word e ≡ true
      → needs_quotes (c ∷ s) ≡ false
      → is_comparison (c ∷ s) ≡ false
      → (w : WordState) × Reads ct
          (at n b ms non_word_state ((c ∷ s) ++ (e ∷ r)))
          (c ∷ s)
          (at n b ms w (e ∷ r))
  unfolding ends_word
  plain-Reads c s end q h = last (
      word_token-Reads (c ∷ s) ((c ∷ s) ++ (e ∷ r))
        (special_word-Meant (c ∷ s) e r q h (ground arith)))
    where
      last :
          (w : WordState) × (t : Token) × (word_token
                (c ∷ s)
                (e ∷ r)
                (at n b ms non_word_state ((c ∷ s) ++ (e ∷ r)))
              ≡ (t, at n b ms w (e ∷ r)))
            × (sword t ≡ some (c ∷ s))
          → (w : WordState) × Reads ct
              (at n b ms non_word_state ((c ∷ s) ++ (e ∷ r)))
              (c ∷ s)
              (at n b ms w (e ∷ r))
      last (w, t, lexes, means) = (w, last_piece t (yylex-word c s end q ∙ lexes) means)
