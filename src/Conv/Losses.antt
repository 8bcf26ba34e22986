-- ===== src/Conv/Losses.antt =====
-- src/conv.c and src/token.c: words that are printed without quotes and not read back.
use desh.Common.{
  ℕ, Bool, true, false, ◌||◌, List, ◌∷◌, ◌++◌, Str, codes, ◌≡◌, refl, sym, subst, inl, inr, ◌⊎◌,
  none, streq, streq→eq,
}
use desh.Token.State.{
  Token, key_word_state, non_word_state, non_word, lt_token, le_token, gt_token, ge_token, eq_token,
  ne_token,
}
use desh.Token.Escape.{Ctypes}
use desh.Token.Word.{word_token, special_word, keyword}
use desh.Token.Yylex.{yylex}
use desh.Conv.Quote.{sconv, needs_quotes}
use desh.Conv.Reads.{sword, is_comparison}
use desh.Conv.Pieces.{at}
use desh.Conv.Joined.{ends_word}
use desh.Conv.Plain.{yylex-word}

or_true : (a b : Bool) → (a || b) ≡ true → (a ≡ true) ⊎ (b ≡ true)
or_true true b h = inl refl
or_true false b h = inr h

module _ (isprint : ℕ → Bool) (ct : Ctypes) (n : ℕ) (b : Bool) (ms : List Str) (e : ℕ) (r : List ℕ)
    (end : ends_word e ≡ true) where
  -- What is printed for `s` is lexed as a token that is no word.
  NoWord : Str → Type 0
  NoWord s =
      (t : Token) × (yylex ct (at n b ms non_word_state (sconv isprint false s ++ (e ∷ r)))
        ≡ (t, at n b ms key_word_state (e ∷ r)))
      × (sword t ≡ none)

  -- One name, or one of the rest.
  name-NoWord :
      (s name : Str) (rest : Bool)
      → NoWord name
      → (rest ≡ true → NoWord s)
      → (streq s name || rest) ≡ true
      → NoWord s
  name-NoWord s name rest h other k = elim (or_true (streq s name) rest k) [
    | inl l ↦ subst NoWord (sym (streq→eq s name l)) h
    | inr l ↦ other l
  ]

  last-NoWord : (s name : Str) → NoWord name → streq s name ≡ true → NoWord s
  last-NoWord s name h k = subst NoWord (sym (streq→eq s name k)) h

  -- What `%S` prints for a word for a comparison, such as `:lt`, is lexed as one token, for which
  -- the grammar has no word.
  pub sconv_comparison :
      (s : Str)
      → is_comparison s ≡ true
      → (t : Token) × (yylex ct (at n b ms non_word_state (sconv isprint false s ++ (e ∷ r)))
          ≡ (t, at n b ms key_word_state (e ∷ r)))
        × (sword t ≡ none)
  unfolding is_comparison NoWord sconv needs_quotes non_word word_token special_word keyword at
      sword
  sconv_comparison s =
      name-NoWord s (codes ":lt") _
        (lt_token, yylex-word ct n b ms e r b':' (codes "lt") end refl, refl)
        (name-NoWord s (codes ":le") _
          (le_token, yylex-word ct n b ms e r b':' (codes "le") end refl, refl)
          (name-NoWord s (codes ":gt") _
            (gt_token, yylex-word ct n b ms e r b':' (codes "gt") end refl, refl)
            (name-NoWord s (codes ":ge") _
              (ge_token, yylex-word ct n b ms e r b':' (codes "ge") end refl, refl)
              (name-NoWord s (codes ":eq") _
                (eq_token, yylex-word ct n b ms e r b':' (codes "eq") end refl, refl)
                (last-NoWord s (codes ":ne")
                  (ne_token, yylex-word ct n b ms e r b':' (codes "ne") end refl, refl))))))
