-- ===== src/Token/Behind.antt =====
-- src/token.c: quoted strings and escapes leave no more input than they find.
use desh.Common.{
  ℕ, suc, ◌+◌, ◌-◌, ◌%◌, ◌^◌, ◌*◌, ◌≤◌, Bool, true, false, ◌||◌, List, [], ◌∷◌, ◌==◌, length, arith,
  ◌≡◌, if◌then◌else◌, if_split, Str, length-drop,
}
use desh.Token.Scan.{
  Quoted, closed, interrupted, unclosed, push, continue_line, plain_byte, quoted_string,
}
use desh.Token.Escape.{
  Ctypes, Escaped, escaped, bad_escape, interrupt, numbered, octal_digits, hex_digits,
  escape_switch, isodigit, hex_digit_value,
}

-- What a quoted string leaves.
abbrev pub quoted_left : Quoted → List ℕ
quoted_left (closed s n left) = left
quoted_left (interrupted n left) = left
quoted_left (unclosed n) = []

-- At most `n` bytes are left.
Short : ℕ → Quoted → Type 0
Short n q = length (quoted_left q) ≤ n

push-Short : (c m n : ℕ) (q : Quoted) → Short n q → Short n (push c m q)
unfolding Short
push-Short c m n (closed s k left) h = h
push-Short c m n (interrupted k left) h = h
push-Short c m n (unclosed k) h = h

continue_line-Short : (n : ℕ) (q : Quoted) → Short n q → Short n (continue_line q)
unfolding Short
continue_line-Short n (closed s k left) h = h
continue_line-Short n (interrupted k left) h = h
continue_line-Short n (unclosed k) h = h

plain_byte-Short :
    (c : ℕ) (s : List ℕ) (n : ℕ) (q : Quoted)
    → length s ≤ n
    → Short n q
    → Short n (plain_byte c s q)
unfolding Short
plain_byte-Short c s n q h k =
    if_split (Short n) (c == 0) _ _ (λ b. h)
      (λ b.
        if_split (Short n) (c == 10) _ _ (λ j. push-Short c 1 n q k) (λ j. push-Short c 0 n q k))

Short-le : (n m : ℕ) (q : Quoted) → Short n q → n ≤ m → Short m q
unfolding Short
Short-le n m q h k = omega arith

quoted_string-Short : (quote : ℕ) (s : List ℕ) → Short (length s) (quoted_string quote s)
unfolding quoted_string Short
quoted_string-Short quote [] = omega arith
quoted_string-Short quote (c ∷ []) =
    if_split (Short 1) (c == quote) _ _ (λ b. omega arith)
      (λ b.
        if_split (Short 1) (c == b'\\') _ _ (λ j. omega arith)
          (λ j. plain_byte-Short c [] 1 (unclosed 0) (omega arith) (omega arith)))
quoted_string-Short quote (c ∷ d ∷ s) =
    let both =
      Short-le (length s) (suc (suc (length s))) (quoted_string quote s)
        (quoted_string-Short quote s) (omega arith) in
    let one =
      Short-le (suc (length s)) (suc (suc (length s))) (quoted_string quote (d ∷ s))
        (quoted_string-Short quote (d ∷ s)) (omega arith) in
    if_split (Short (suc (suc (length s)))) (c == quote) _ _
      (λ b.
        if_split (Short (suc (suc (length s)))) (d == quote) _ _
          (λ j. push-Short quote 0 _ (quoted_string quote s) both) (λ j. omega arith))
      (λ b.
        if_split (Short (suc (suc (length s)))) (c == b'\\') _ _
          (λ j.
            if_split (Short (suc (suc (length s)))) (d == 10) _ _
              (λ k. continue_line-Short _ (quoted_string quote s) both)
              (λ k.
                if_split (Short (suc (suc (length s)))) (d == quote) _ _
                  (λ l. push-Short quote 0 _ (quoted_string quote s) both)
                  (λ l. push-Short c 0 _ (quoted_string quote (d ∷ s)) one)))
          (λ j. plain_byte-Short c (d ∷ s) _ _ (omega arith) one))

pub quoted_string-left :
    (quote : ℕ) (s : List ℕ) → length (quoted_left (quoted_string quote s)) ≤ length s
unfolding Short
quoted_string-left quote s = quoted_string-Short quote s

-- What an escape leaves.
abbrev pub escape_left : Escaped → List ℕ
escape_left (escaped s left) = left
escape_left (bad_escape left) = left
escape_left (interrupt left) = left

numbered-left : (p : ℕ × List ℕ) → length (escape_left (numbered p)) ≤ length (p.1)
numbered-left (n, s) =
    if_split (λ e. length (escape_left e) ≤ length s) (n == 0) _ _
      (λ b. omega (arith, length-drop 1 s)) (λ b. omega arith)

octal_digits-left : (n : ℕ) (s : List ℕ) → length ((octal_digits n s).1) ≤ length s
unfolding octal_digits
octal_digits-left n [] = omega arith
octal_digits-left n (c ∷ s) =
    if_split (λ (p : ℕ × List ℕ). length (p.1) ≤ suc (length s)) (isodigit c) _ _
      (λ b. omega (arith, octal_digits-left ((n * 8 + (c - b'0')) % 2 ^ 32) s)) (λ b. omega arith)

octal_digits-first :
    (c : ℕ) (s : List ℕ) → isodigit c ≡ true → length ((octal_digits 0 (c ∷ s)).1) ≤ length s
unfolding octal_digits
octal_digits-first c s h = rw h (octal_digits-left ((0 * 8 + (c - b'0')) % 2 ^ 32) s)

module _ (ct : Ctypes) where
  hex_digits-left : (n : ℕ) (s : List ℕ) → length ((hex_digits ct n s).1) ≤ length s
  unfolding hex_digits
  hex_digits-left n [] = omega arith
  hex_digits-left n (c ∷ s) =
      if_split (λ (p : ℕ × List ℕ). length (p.1) ≤ suc (length s)) (ct.isxdigit c) _ _
        (λ b. omega (arith, hex_digits-left ((n * 16 + hex_digit_value ct c) % 2 ^ 32) s))
        (λ b. omega arith)

  -- At most the bytes of `s` are left.
  EscapeShort : List ℕ → Escaped → Type 0
  EscapeShort s o = length (escape_left o) ≤ length s

  letter-EscapeShort :
      (b : Bool) (x : Str) (s : List ℕ) (o : Escaped)
      → EscapeShort s o
      → EscapeShort s (if b then escaped x s else o)
  unfolding EscapeShort
  letter-EscapeShort true x s o h = omega arith
  letter-EscapeShort false x s o h = h

  digits-EscapeShort :
      (c : ℕ) (s : List ℕ) (o : Escaped)
      → EscapeShort s o
      → EscapeShort s (
          if (c == b'x') || (c == b'X')
          then numbered (hex_digits ct 0 s)
          else if isodigit c
          then numbered (octal_digits 0 (c ∷ s))
          else o)
  unfolding EscapeShort
  digits-EscapeShort c s o h =
      if_split (EscapeShort s) ((c == b'x') || (c == b'X')) _ _
        (λ b. omega (arith, numbered-left (hex_digits ct 0 s), hex_digits-left 0 s))
        (λ b.
          if_split (EscapeShort s) (isodigit c) _ _
            (λ j. omega (arith, numbered-left (octal_digits 0 (c ∷ s)), octal_digits-first c s j))
            (λ j. h))

  alnum-EscapeShort :
      (b : Bool) (c : ℕ) (s : List ℕ)
      → EscapeShort s (if b then bad_escape s else escaped (c ∷ []) s)
  unfolding EscapeShort
  alnum-EscapeShort true c s = omega arith
  alnum-EscapeShort false c s = omega arith

  interrupt-EscapeShort :
      (b : Bool) (s : List ℕ) (o : Escaped)
      → EscapeShort s o
      → EscapeShort s (if b then interrupt s else o)
  unfolding EscapeShort
  interrupt-EscapeShort true s o h = omega arith
  interrupt-EscapeShort false s o h = h

  escape_switch-EscapeShort : (c : ℕ) (s : List ℕ) → EscapeShort s (escape_switch ct c s)
  unfolding escape_switch
  escape_switch-EscapeShort c s = interrupt-EscapeShort (c == 0) s _ (
      letter-EscapeShort (c == b'a') (7 ∷ []) s _ (
        letter-EscapeShort (c == b'b') (8 ∷ []) s _ (
          letter-EscapeShort (c == b'e') (27 ∷ []) s _ (
            letter-EscapeShort (c == b'f') (12 ∷ []) s _ (
              letter-EscapeShort (c == b'n') (10 ∷ []) s _ (
                letter-EscapeShort (c == b'r') (13 ∷ []) s _ (
                  letter-EscapeShort (c == b't') (9 ∷ []) s _
                    (digits-EscapeShort c s _ (alnum-EscapeShort (ct.isalnum c) c s)))))))))

  pub escape_switch-left :
      (c : ℕ) (s : List ℕ) → length (escape_left (escape_switch ct c s)) ≤ length s
  unfolding EscapeShort
  escape_switch-left c s = escape_switch-EscapeShort c s
