-- ===== src/Match.antt =====
-- src/match.c: `rangematch` and `match`, and the quote flags of src/glob.cpp.
-- A pointer into a string is the list of the bytes from there on, so `p + i` is `drop i p`.
pub mod Class
pub mod Beyond
pub mod Items
pub mod Reflects
pub mod Wild
pub mod Words
pub mod Extract
mod Tests
use desh.Common.{
  ℕ, zero, suc, ◌+◌, ◌%◌, Bool, true, false, ◌&&◌, ◌||◌, not, Option, none, some, List, [], ◌∷◌,
  leb, ◌==◌, if◌then◌else◌, drop, length, Str, char_at, streq,
}
use mathlib.Core.Bool.{xor}

-- The quoting of a word: the pointers `QUOTED` and `UNQUOTED`, or a string with a flag, 'q' or
-- 'r', for each byte of the word.
pub data Quote : Type 0 where
  quoted unquoted : Quote
  flags : Str → Quote

-- `ISQUOTED(q, n)`
abbrev pub is_quoted : Quote → ℕ → Bool
is_quoted quoted n = true
is_quoted unquoted n = false
is_quoted (flags f) n = char_at f n == b'q'

-- `q == UNQUOTED || q[n] == 'r'`
abbrev pub is_raw : Quote → ℕ → Bool
is_raw quoted n = false
is_raw unquoted n = true
is_raw (flags f) n = char_at f n == b'r'

-- `TAILQUOTE(q, n)`; the code never asks for the tail of `QUOTED`.
abbrev pub tailquote : Quote → ℕ → Quote
tailquote quoted n = quoted
tailquote unquoted n = unquoted
tailquote (flags f) n = flags (drop n f)

-- `a <= b` on values of type `char`, which is signed.
abbrev pub char_le : ℕ → ℕ → Bool
char_le a b = leb ((a + 128) % 256) ((b + 128) % 256)

-- The int that `rangematch` returns: RANGE_FAIL, RANGE_ERROR, or the offset behind the class.
pub data Range : Type 0 where
  range_fail range_error : Range
  range_end : ℕ → Range

-- What the linked program has behind the arrays of src/glob.cpp, UNQUOTED, which is `"RAW"`, and
-- QUOTED, which is `"QUOTED"`: the bytes behind the NUL of each, and whether the other one stands `k`
-- bytes behind its start.
pub record Memory : Type 0 where
  pub behind_raw : ℕ → ℕ
  pub behind_quoted : ℕ → ℕ
  pub quoted_at : ℕ → Bool
  pub unquoted_at : ℕ → Bool

-- `q` in `rangematch`, which goes on by `q++` from the two arrays too: `raw_spot k` is
-- `UNQUOTED + k`, and `quoted_spot k` is `QUOTED + k`.
pub data Spot : Type 0 where
  quoted_spot raw_spot : ℕ → Spot
  flag_spot : Str → Spot

abbrev pub spot_of : Quote → Spot
spot_of quoted = quoted_spot 0
spot_of unquoted = raw_spot 0
spot_of (flags f) = flag_spot f

-- `q += n`
abbrev pub advance : Spot → ℕ → Spot
advance (quoted_spot k) n = quoted_spot (k + n)
advance (raw_spot k) n = raw_spot (k + n)
advance (flag_spot f) n = flag_spot (drop n f)

-- The byte `k` of a string with its NUL, and of what stands behind it.
abbrev pub byte_in : Str → (ℕ → ℕ) → ℕ → ℕ
byte_in [] behind zero = 0
byte_in [] behind (suc k) = behind k
byte_in (c ∷ s) behind zero = c
byte_in (c ∷ s) behind (suc k) = byte_in s behind k

-- `UNQUOTED[k]`, and `QUOTED[k]` below
abbrev pub raw_byte : Memory → ℕ → ℕ
raw_byte mem k = byte_in (b'R' ∷ b'A' ∷ b'W' ∷ []) mem.behind_raw k

abbrev pub quoted_byte : Memory → ℕ → ℕ
quoted_byte mem k = byte_in (b'Q' ∷ b'U' ∷ b'O' ∷ b'T' ∷ b'E' ∷ b'D' ∷ []) mem.behind_quoted k

-- `ISQUOTED(q, n)` at a spot: behind the start of an array, the bytes there are taken for flags,
-- unless the other array starts there.
abbrev pub spot_quoted : Memory → Spot → ℕ → Bool
spot_quoted mem (quoted_spot zero) n = true
spot_quoted mem (quoted_spot (suc k)) n =
    not (mem.unquoted_at (suc k)) && (quoted_byte mem (suc k + n) == b'q')
spot_quoted mem (raw_spot zero) n = false
spot_quoted mem (raw_spot (suc k)) n = mem.quoted_at (suc k) || (raw_byte mem (suc k + n) == b'q')
spot_quoted mem (flag_spot f) n = char_at f n == b'q'

-- A call of `match` on a text, the pattern behind some offset and its quote flags.
abbrev pub Matcher : Type 0
Matcher = Str → Str → Quote → Bool

-- `if (c != *s++) return FALSE`, and the rest of the loop.
pub match_char : Matcher → ℕ → Str → Str → Quote → Bool
match_char rest c [] p q = false
match_char rest c (x ∷ s) p q = if c == x then rest s p q else false

-- `case '?'`
pub match_any : Matcher → Str → Str → Quote → Bool
match_any rest [] p q = false
match_any rest (x ∷ s) p q = rest s p q

-- The inner loop of `case '*'` that collapses multiple stars.
pub collapse : Str → Quote → Str × Quote
collapse [] q = ([], q)
collapse (x ∷ p) q = if (x == b'*') && is_raw q 0 then collapse p (tailquote q 1) else (x ∷ p, q)

-- `while (*s != '\0') if (match(s++, …)) return TRUE; return FALSE;`
pub any_tail : (Str → Bool) → Str → Bool
any_tail found [] = false
any_tail found (x ∷ s) = if found (x ∷ s) then true else any_tail found s

-- The tests behind the collapsed stars.
pub star_rest : Matcher → Str → Str × Quote → Bool
star_rest rest s ([], q) = true
star_rest rest s (x ∷ p, q) = any_tail (λ t. rest t (x ∷ p) q) s

-- The switch on the result of `rangematch`, for the byte `x` of the text.
pub after_range : Matcher → ℕ → Str → Str → Quote → Range → Bool
after_range rest x s p q range_fail = false
after_range rest x s p q range_error = if x == b'[' then rest s p q else false
after_range rest x s p q (range_end j) = rest s (drop j p) (tailquote q j)

abbrev pub is_end : Str → Bool
is_end [] = true
is_end (x ∷ s) = false

module _ ⦃mem : Memory⦄ where
  -- `*p == ']' && !ISQUOTED(q, 0)`
  abbrev pub closes : ℕ → Spot → Bool
  closes x q = (x == b']') && not (spot_quoted mem q 0)

  -- The test for `x-y`, at the bytes `d` and `y` behind `x`.
  abbrev pub is_range : ℕ → ℕ → Spot → Bool
  is_range d y q =
      (d == b'-')
      && not (spot_quoted mem q 1)
      && ((not (y == b']') && not (y == 0)) || spot_quoted mem q 2)

  -- The for loop: the offset of the closing bracket, counted on from `n`, and `matched`.
  -- `none` is RANGE_ERROR, when the pattern ends first; where bytes behind the two arrays make its NUL
  -- the end of a range, the code goes on behind it.
  pub range_loop : Str → Spot → ℕ → ℕ → Bool → Option (ℕ × Bool)
  range_loop [] q c n matched = none
  range_loop (x ∷ d ∷ y ∷ p) q c n matched =
      let range = range_loop p (advance q 3) c (n + 3) (matched || (char_le x c && char_le c y)) in
      let single = range_loop (d ∷ y ∷ p) (advance q 1) c (n + 1) (matched || (x == c)) in
      if closes x q then some (n, matched) else if is_range d y q then range else single
  range_loop (x ∷ p) q c n matched =
      if closes x q
      then some (n, matched)
      else range_loop p (advance q 1) c (n + 1) (matched || (x == c))

  -- The returns behind the loop; `p - orig + 1` skips the right bracket.
  abbrev pub range_result : Bool → Option (ℕ × Bool) → Range
  range_result neg none = range_error
  range_result neg (some (n, matched)) = if xor matched neg then range_end (n + 1) else range_fail

  -- From behind the `~`: a right bracket that comes first is a member of the class.
  pub range_first : Str → Spot → ℕ → ℕ → Option (ℕ × Bool)
  range_first p q c n =
      if closes (char_at p 0) q
      then range_loop (drop 1 p) (advance q 1) c (n + 1) (c == b']')
      else range_loop p q c n false

  -- `*p == '~' && !ISQUOTED(q, 0)`
  abbrev pub negates : Str → Spot → Bool
  negates p q = (char_at p 0 == b'~') && not (spot_quoted mem q 0)

  pub rangematch : Str → Quote → ℕ → Range
  unfolding range_loop range_first xor
  rangematch p q c =
      if negates p (spot_of q)
      then range_result true (range_first (drop 1 p) (advance (spot_of q) 1) c 1)
      else range_result false (range_first p (spot_of q) c 0)

  -- `case '['`
  pub match_class : Matcher → Str → Str → Quote → Bool
  match_class rest [] p q = false
  match_class rest (x ∷ s) p q = after_range rest x s p q (rangematch p q x)

  -- The switch on the byte `c` of the pattern, with the pattern behind `c`.
  pub match_switch : Matcher → ℕ → Str → Str → Quote → Bool
  match_switch rest c s p q =
      if c == b'?'
      then match_any rest s p q
      else if c == b'*'
      then star_rest rest s (collapse p q)
      else if c == b'['
      then match_class rest s p q
      else match_char rest c s p q

  -- The body of `match`. Each round and each recursive call shortens the pattern, which the fuel
  -- bounds.
  pub match_loop : ℕ → Matcher
  match_loop zero s p q = false
  match_loop (suc f) s [] q = is_end s
  match_loop (suc f) s (c ∷ p) q =
      if is_raw q 0
      then match_switch (match_loop f) c s p (tailquote q 1)
      else match_char (match_loop f) c s p (tailquote q 1)

  unfoldable pub match : Matcher
  unfolding match_loop match_switch match_char match_any collapse any_tail star_rest after_range
      match_class rangematch
  match s p quoted = streq s p
  match s p q = match_loop (length p + 1) s p q
