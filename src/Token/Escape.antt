-- ===== src/Token/Escape.antt =====
-- src/token.c: the escapes with a backslash outside of quotes.
use desh.Common.{
  ℕ, ◌+◌, ◌-◌, ◌*◌, ◌%◌, ◌^◌, Bool, ◌||◌, List, [], ◌∷◌, ◌==◌, if◌then◌else◌, Str, drop,
}
use desh.Token.State.{between}

-- Functions of the C library.
pub record Ctypes : Type 0 where
  pub isxdigit : ℕ → Bool
  pub isdigit : ℕ → Bool
  pub islower : ℕ → Bool
  pub isalnum : ℕ → Bool

-- The word, a bad escape, or an interrupt, and what is left.
pub data Escaped : Type 0 where
  escaped : Str → List ℕ → Escaped
  bad_escape : List ℕ → Escaped
  interrupt : List ℕ → Escaped

-- `*buf = n; buf[1] = 0`, as a C string
abbrev pub byte_word : ℕ → Str
byte_word n = if n % 256 == 0 then [] else (n % 256) ∷ []

-- Behind the digits: `if (n == 0) goto badescape; UNGETC(c)`, with `c` still in the list.
abbrev pub numbered : ℕ × List ℕ → Escaped
numbered (n, rest) = if n == 0 then bad_escape (drop 1 rest) else escaped (byte_word n) rest

abbrev pub isodigit : ℕ → Bool
isodigit c = between b'0' b'7' c

-- `n` is an int, of 32 bits.
unfoldable pub octal_digits : ℕ → List ℕ → ℕ × List ℕ
octal_digits n [] = (n, [])
octal_digits n (c ∷ s) =
    let rest = octal_digits ((n * 8 + (c - b'0')) % 2 ^ 32) s in
    if isodigit c then rest else (n, c ∷ s)

module _ (ct : Ctypes) where
  abbrev pub hex_digit_value : ℕ → ℕ
  hex_digit_value c =
      if ct.isdigit c then c - b'0' else if ct.islower c then c - (b'a' - 10) else c - (b'A' - 10)

  unfoldable pub hex_digits : ℕ → List ℕ → ℕ × List ℕ
  hex_digits n [] = (n, [])
  hex_digits n (c ∷ s) =
      let rest = hex_digits ((n * 16 + hex_digit_value c) % 2 ^ 32) s in
      if ct.isxdigit c then rest else (n, c ∷ s)

  -- The switch on the byte `c` behind the backslash.
  unfoldable pub escape_switch : ℕ → List ℕ → Escaped
  unfolding octal_digits hex_digits
  escape_switch c s =
      if c == 0
      then interrupt s
      else if c == b'a'
      then escaped (7 ∷ []) s
      else if c == b'b'
      then escaped (8 ∷ []) s
      else if c == b'e'
      then escaped (27 ∷ []) s
      else if c == b'f'
      then escaped (12 ∷ []) s
      else if c == b'n'
      then escaped (10 ∷ []) s
      else if c == b'r'
      then escaped (13 ∷ []) s
      else if c == b't'
      then escaped (9 ∷ []) s
      else if (c == b'x') || (c == b'X')
      then numbered (hex_digits 0 s)
      else if isodigit c
      then numbered (octal_digits 0 (c ∷ s))
      else if ct.isalnum c
      then bad_escape s
      else escaped (c ∷ []) s
