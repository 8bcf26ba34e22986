-- ===== src/Conv/Octal.antt =====
-- src/conv.c and src/token.c: a byte printed as an escape is read as that byte.
use desh.Common.{
  ℕ, ◌+◌, ◌-◌, ◌*◌, ◌/◌, ◌%◌, ◌^◌, ◌<◌, true, false, List, [], ◌∷◌, ◌++◌, ◌==◌, ltb, Str, arith,
  ◌≡◌, refl, ap, ◌∙◌, Bool-cases, inl, inr, ltb→lt, if_split, if◌then◌else◌, subst, sym,
}
use desh.Token.State.{Lexer, qword, real_word_state, insert_free_caret, is_non_word_state}
use desh.Token.Escape.{Ctypes, escaped, numbered, octal_digits, escape_switch, isodigit}
use desh.Token.Yylex.{lex_backslash, lex_escaped}
use desh.Conv.Quote.{octal, escape_name}

-- A digit is read.
octal_digits-digit :
    (n d m : ℕ) (s : List ℕ)
    → d < 8
    → n * 8 + d ≡ m
    → m < 256
    → octal_digits n ((b'0' + d) ∷ s) ≡ octal_digits m s
unfolding octal_digits
octal_digits-digit n d m s h k l = rw is_digit (ap (λ v. octal_digits v s) value)
  where
    is_digit : isodigit (b'0' + d) ≡ true
    is_digit = ground arith

    value : (n * 8 + ((b'0' + d) - b'0')) % 2 ^ 32 ≡ m
    value = omega arith

-- Another byte ends the number.
octal_digits-end : (n e : ℕ) (s : List ℕ) → isodigit e ≡ false → octal_digits n (e ∷ s) ≡ (n, e ∷ s)
unfolding octal_digits
octal_digits-end n e s h = rw h refl

octal_digits-two :
    (n a b m e : ℕ) (s : List ℕ)
    → a < 8
    → b < 8
    → isodigit e ≡ false
    → (n * 8 + a) * 8 + b ≡ m
    → m < 256
    → octal_digits n ((b'0' + a) ∷ (b'0' + b) ∷ e ∷ s) ≡ (m, e ∷ s)
octal_digits-two n a b m e s p q k v l =
    octal_digits-digit n a (n * 8 + a) ((b'0' + b) ∷ e ∷ s) p refl (omega arith)
    ∙ octal_digits-digit (n * 8 + a) b m (e ∷ s) q v l
    ∙ octal_digits-end m e s k

octal_digits-octal :
    (c e : ℕ) (s : List ℕ)
    → c < 256
    → isodigit e ≡ false
    → octal_digits 0 (octal c ++ (e ∷ s)) ≡ (c, e ∷ s)
unfolding octal
octal_digits-octal c e s h k = elim (Bool-cases (ltb c 8)) [
  | inl p ↦
      rw p
        (octal_digits-digit 0 c c (e ∷ s) (ltb→lt c 8 p) (omega arith) h ∙ octal_digits-end c e s k)
  | inr p ↦ elim (Bool-cases (ltb c 64)) [
    | inl q ↦ rw p (
        rw q (
          octal_digits-two 0 (c / 8) (c % 8) c e s (eighth (ltb→lt c 64 q)) (omega arith) k
            (omega arith) h))
    | inr q ↦ rw p (
        rw q (
          octal_digits-digit 0 (c / 64) (c / 64) _ (omega arith) (omega arith) (omega arith)
          ∙ octal_digits-two (c / 64) ((c / 8) % 8) (c % 8) c e s (omega arith) (omega arith) k
              (omega arith) h))
  ]
]
  where
    eighth : c < 64 → c / 8 < 8
    eighth q = omega arith

-- The first character is a digit.
octal_head : (c : ℕ) → c < 256 → (x : ℕ) × (y : Str) × (octal c ≡ x ∷ y) × (isodigit x ≡ true)
unfolding octal
octal_head c h = elim (Bool-cases (ltb c 8)) [
  | inl p ↦ (b'0' + c, [], rw p refl, digit_true c (ltb→lt c 8 p))
  | inr p ↦ elim (Bool-cases (ltb c 64)) [
    | inl q ↦ (
      b'0' + c / 8,
      (b'0' + c % 8) ∷ [],
      rw p (rw q refl),
      digit_true (c / 8) (eighth (ltb→lt c 64 q)),
    )
    | inr q ↦ (
      b'0' + c / 64,
      (b'0' + (c / 8) % 8) ∷ (b'0' + c % 8) ∷ [],
      rw p (rw q refl),
      digit_true (c / 64) (omega arith),
    )
  ]
]
  where
    digit_true : (d : ℕ) → d < 8 → isodigit (b'0' + d) ≡ true
    digit_true d k = ground arith

    eighth : c < 64 → c / 8 < 8
    eighth q = omega arith

-- An escape does not start with a newline.
NoNewline : Str → Type 0
NoNewline z = (y : ℕ) × (x : Str) × (z ≡ y ∷ x) × ((y == 10) ≡ false)

letter-NoNewline :
    (c k y : ℕ) (x : Str)
    → (y == 10) ≡ false
    → NoNewline x
    → NoNewline (if c == k then y ∷ [] else x)
unfolding NoNewline
letter-NoNewline c k y x h other =
    if_split NoNewline (c == k) (y ∷ []) x (λ b. (y, [], refl, h)) (λ b. other)

pub escape_name_head :
    (c : ℕ) → c < 256 → (y : ℕ) × (x : Str) × (escape_name c ≡ y ∷ x) × ((y == 10) ≡ false)
unfolding escape_name NoNewline
escape_name_head c q = letter-NoNewline c 7 b'a' _ refl (
    letter-NoNewline c 8 b'b' _ refl (
      letter-NoNewline c 12 b'f' _ refl (
        letter-NoNewline c 10 b'n' _ refl (
          letter-NoNewline c 13 b'r' _ refl (
            letter-NoNewline c 9 b't' _ refl (
              letter-NoNewline c 27 b'e' _ refl
                (let (y, x, h, d) = octal_head c q in (y, x, h, digit-not_newline y d))))))))
  where
    digit-not_newline : (y : ℕ) → isodigit y ≡ true → (y == 10) ≡ false
    digit-not_newline y d = ground arith

module _ (ct : Ctypes) where
  escape_switch-digit :
      (x : ℕ) (s : List ℕ)
      → isodigit x ≡ true
      → escape_switch ct x s ≡ numbered (octal_digits 0 (x ∷ s))
  unfolding escape_switch
  escape_switch-digit x s h = ground arith

numbered_byte :
    (c e : ℕ) (s : List ℕ) → 0 < c → c < 256 → numbered (c, e ∷ s) ≡ escaped (c ∷ []) (e ∷ s)
numbered_byte c e s p q = rw nonzero (rw byte (rw nonzero refl))
  where
    nonzero : (c == 0) ≡ false
    nonzero = ground arith

    byte : c % 256 ≡ c
    byte = omega arith

module _ (ct : Ctypes) (c e : ℕ) (s : List ℕ) (st : Lexer) (w : is_non_word_state st.w ≡ true) where
  -- What is behind a backslash is read as the byte.
  ReadAsByte : Str → Type 0
  ReadAsByte x =
      lex_backslash ct (x ++ (e ∷ s)) st
      ≡ (qword (c ∷ []), record st { w = real_word_state; input = e ∷ s })

  switch-ReadAsByte :
      (y : ℕ) (x : Str)
      → escape_switch ct y (x ++ (e ∷ s)) ≡ escaped (c ∷ []) (e ∷ s)
      → ReadAsByte (y ∷ x)
  unfolding ReadAsByte lex_backslash lex_escaped insert_free_caret
  switch-ReadAsByte y x h = rw w (rw h refl)

  octal-ReadAsByte : 0 < c → c < 256 → isodigit e ≡ false → ReadAsByte (octal c)
  octal-ReadAsByte p q k =
      let (y, x, h, d) = octal_head c q in
      subst ReadAsByte (sym h) (
        switch-ReadAsByte y x (
          escape_switch-digit ct y (x ++ (e ∷ s)) d
          ∙ ap numbered
              (ap (λ z. octal_digits 0 (z ++ (e ∷ s))) (sym h) ∙ octal_digits-octal c e s q k)
          ∙ numbered_byte c e s p q))

  -- A letter for the byte `k`, or what else there is.
  letter-ReadAsByte :
      (k y : ℕ) (x : Str)
      → (escape_switch ct y (e ∷ s) ≡ escaped (k ∷ []) (e ∷ s))
      → ReadAsByte x
      → ReadAsByte (if c == k then y ∷ [] else x)
  letter-ReadAsByte k y x h other =
      if_split ReadAsByte (c == k) (y ∷ []) x
        (λ b. switch-ReadAsByte y [] (h ∙ ap (λ j. escaped (j ∷ []) (e ∷ s)) (sym (equal b))))
        (λ b. other)
    where
      equal : (c == k) ≡ true → c ≡ k
      equal b = ground arith

  pub escape_name-read :
      0 < c
      → c < 256
      → isodigit e ≡ false
      → lex_backslash ct (escape_name c ++ (e ∷ s)) st
        ≡ (qword (c ∷ []), record st { w = real_word_state; input = e ∷ s })
  unfolding ReadAsByte escape_name escape_switch
  escape_name-read p q k = letter-ReadAsByte 7 b'a' _ refl (
      letter-ReadAsByte 8 b'b' _ refl (
        letter-ReadAsByte 12 b'f' _ refl (
          letter-ReadAsByte 10 b'n' _ refl (
            letter-ReadAsByte 13 b'r' _ refl (
              letter-ReadAsByte 9 b't' _ refl
                (letter-ReadAsByte 27 b'e' _ refl (octal-ReadAsByte p q k)))))))
