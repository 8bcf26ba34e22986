-- ===== src/Conv/Quote.antt =====
-- src/conv.c: `Sconv`, which prints a string for `%S` and, with the flag `#`, for `%#S`.
use desh.Common.{
  ℕ, ◌+◌, ◌/◌, ◌%◌, Bool, ◌||◌, not, true, false, [], ◌∷◌, ◌++◌, ◌==◌, ltb, if◌then◌else◌, Str,
  codes,
}
use desh.Token.State.{non_word}

pub data QuoteState : Type 0 where
  begin_state quoted_state unquoted_state : QuoteState

-- `%o` of a byte
unfoldable pub octal : ℕ → Str
octal c =
    if ltb c 8
    then (b'0' + c) ∷ []
    else if ltb c 64
    then (b'0' + c / 8) ∷ (b'0' + c % 8) ∷ []
    else (b'0' + c / 64) ∷ (b'0' + (c / 8) % 8) ∷ (b'0' + c % 8) ∷ []

-- The switch on a byte that cannot be printed, behind its backslash.
unfoldable pub escape_name : ℕ → Str
unfolding octal
escape_name c =
    if c == 7
    then codes "a"
    else if c == 8
    then codes "b"
    else if c == 12
    then codes "f"
    else if c == 10
    then codes "n"
    else if c == 13
    then codes "r"
    else if c == 9
    then codes "t"
    else if c == 27
    then codes "e"
    else octal c

-- What stands before a byte that cannot be printed.
abbrev pub before_escape : QuoteState → Str
before_escape begin_state = []
before_escape quoted_state = codes "'^"
before_escape unquoted_state = codes "^"

-- What stands before a byte that can be printed.
abbrev pub before_byte : QuoteState → Str
before_byte begin_state = codes "'"
before_byte quoted_state = []
before_byte unquoted_state = codes "^'"

abbrev pub quote_end : QuoteState → Str
quote_end begin_state = codes "''"
quote_end quoted_state = codes "'"
quote_end unquoted_state = []

abbrev pub quote_byte : ℕ → Str
quote_byte c = if c == b'\'' then c ∷ c ∷ [] else c ∷ []

-- The loop at `quoteit`, and the switch behind it.
unfoldable pub quoteit : (ℕ → Bool) → QuoteState → Str → Str
unfolding escape_name
quoteit isprint q [] = quote_end q
quoteit isprint q (c ∷ t) =
    let behind_byte = quoteit isprint quoted_state t in
    let behind_escape = quoteit isprint unquoted_state t in
    if not (isprint c)
    then before_escape q ++ (b'\\' ∷ (escape_name c ++ behind_escape))
    else before_byte q ++ (quote_byte c ++ behind_byte)

-- Whether a byte of `s` needs quotes.
unfoldable pub needs_quotes : Str → Bool
unfolding non_word
needs_quotes [] = false
needs_quotes (c ∷ s) = (non_word c || (c == b'@')) || needs_quotes s

abbrev pub is_nul : Str → Bool
is_nul [] = true
is_nul (c ∷ s) = false

-- `Sconv`, where `altform` is the flag
unfoldable pub sconv : (ℕ → Bool) → Bool → Str → Str
unfolding needs_quotes quoteit
sconv isprint altform s =
    if (altform || is_nul s) || needs_quotes s then quoteit isprint begin_state s else s
