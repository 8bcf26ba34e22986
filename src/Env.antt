-- ===== src/Env.antt =====
-- src/conv.c (%F, %N, %W) and src/var.c (mkenv0, importvar, initenv): variables as environment
-- strings, and back.
pub mod Names
pub mod Words
pub mod Undo
pub mod Import
pub mod Environment
pub mod Losses
mod Tests
use desh.Common.{
  ℕ, zero, suc, ◌+◌, ◌-◌, ◌*◌, ◌/◌, ◌%◌, Bool, true, false, ◌&&◌, ◌||◌, not, Option, none, some,
  List, [], ◌∷◌, ◌++◌, ltb, ◌==◌, if◌then◌else◌, Str, char_at, take, drop, length, codes, ◌>>=◌,
}
use desh.Split.{Splitter, fsplit, startsplit, splitstring, endsplit}

-- ENV_SEPARATOR and ENV_ESCAPE
abbrev pub env_separator : ℕ
env_separator = 1

abbrev pub env_escape : ℕ
env_escape = 2

-- `hexchar[n]`, for `%02x` and for `Nconv`
abbrev pub hex_digit : ℕ → ℕ
hex_digit n = if ltb n 10 then b'0' + n else b'a' + (n - 10)

abbrev pub hex_from : ℕ → ℕ → ℕ → Option ℕ
hex_from zero n c = none
hex_from (suc k) n c = if hex_digit n == c then some n else hex_from k (n + 1) c

-- `strchr(hexchar, c) - hexchar`, for a byte that is not NUL
unfoldable pub hex_value : ℕ → Option ℕ
hex_value c = hex_from 16 0 c

-- `isalpha` and `isalnum` of the C library
pub record Ctype : Type 0 where
  pub isalpha : ℕ → Bool
  pub isalnum : ℕ → Bool

-- The test of `Fconv`, at the byte `c` with the string `s` behind it.
abbrev pub is_kept : Ctype → Bool → ℕ → Str → Bool
is_kept ct first c s =
    (if first then ct.isalpha c else ct.isalnum c) || (c == b'_' && not (char_at s 0 == b'_'))

-- The loop of `Fconv`; `first` is `s == name`.
unfoldable pub fconv_from : Ctype → Bool → Str → Str
fconv_from ct first [] = []
fconv_from ct first (c ∷ s) =
    let rest = fconv_from ct false s in
    if is_kept ct first c s
    then c ∷ rest
    else b'_' ∷ b'_' ∷ hex_digit (c / 16 % 16) ∷ hex_digit (c % 16) ∷ rest

unfoldable pub fconv : Ctype → Str → Str
unfolding fconv_from
fconv ct name = fconv_from ct true name

abbrev pub out : ℕ → Option Str → Option Str
out c none = none
out c (some s) = some (c ∷ s)

-- `s[n]`; `none` lies behind the NUL.
abbrev pub byte_at : Str → ℕ → Option ℕ
byte_at [] zero = some 0
byte_at [] (suc n) = none
byte_at (c ∷ s) zero = some c
byte_at (c ∷ s) (suc n) = byte_at s n

-- `strchr(hexchar, c) - hexchar`, from the value of the digit: the NUL behind the digits is found too.
abbrev pub or_nul : ℕ → Option ℕ → Option ℕ
or_nul c (some v) = some v
or_nul c none = if c == 0 then some 16 else none

-- `if (h1 != NULL && h2 != NULL)`
abbrev pub decoded : Option ℕ → Option ℕ → Option Str → Option Str → Option Str
decoded (some a) (some b) then_rest else_rest = out (a * 16 + b) then_rest
decoded (some a) none then_rest else_rest = else_rest
decoded none y then_rest else_rest = else_rest

-- Behind two underscores, with `s[1]` and `s[2]`.
abbrev pub decode : Option ℕ → Option ℕ → Option Str → Option Str → Option Str
decode none y then_rest else_rest = none
decode (some x) none then_rest else_rest = none
decode (some x) (some y) then_rest else_rest =
    decoded (or_nul x (hex_value x)) (or_nul y (hex_value y)) then_rest else_rest

-- The loop of `Nconv`, `n` bytes further on; `none` is a read behind the NUL.
unfoldable pub nconv_from : ℕ → Str → Option Str
unfolding hex_value
nconv_from zero [] = some []
nconv_from (suc n) [] = none
nconv_from (suc n) (c ∷ s) = nconv_from n s
nconv_from zero (c ∷ s) =
    let rest = out c (nconv_from 0 s) in
    let skipped = nconv_from 3 s in
    if c == b'_' && char_at s 0 == b'_'
    then decode (byte_at s 1) (byte_at s 2) skipped rest
    else rest

unfoldable pub nconv : Str → Option Str
unfolding nconv_from
nconv s = nconv_from 0 s

-- The inner loop of `Wconv`.
unfoldable pub wconv_word : Str → Str
wconv_word [] = []
wconv_word (c ∷ s) =
    let rest = wconv_word s in
    if (c == env_escape) || (c == env_separator) then env_escape ∷ c ∷ rest else c ∷ rest

unfoldable pub wconv : List Str → Str
unfolding wconv_word
wconv [] = []
wconv (w ∷ []) = wconv_word w
wconv (w ∷ v ∷ ws) = wconv_word w ++ env_separator ∷ wconv (v ∷ ws)

-- `str(ENV_FORMAT, key, var->defn)` in `mkenv0`
unfoldable pub envstr : Ctype → Str → List Str → Str
unfolding fconv wconv
envstr ct key defn = fconv ct key ++ b'=' ∷ wconv defn

-- `strchr(s, c)`, as the bytes before and from `c` on
unfoldable pub break_at : ℕ → Str → Option (Str × Str)
break_at c [] = none
break_at c (x ∷ s) =
    let later = break_at c s >>= (λ (p, q). some (x ∷ p, q)) in
    if x == c then some ([], x ∷ s) else later

-- The string of the term, and the terms behind it.
abbrev pub TermPlace : Type 0
TermPlace = Str × List Str

-- The switch at an escape before `offset` in `word`: the place then, and the offset.
unfoldable pub undo_escape : Str → ℕ → TermPlace → TermPlace × ℕ
undo_escape word offset (str, []) =
    if char_at word offset == env_escape
    then ((take offset word ++ drop (offset + 1) word, []), offset + 1)
    else ((str, []), offset)
undo_escape word offset (str, str2 ∷ next) =
    if char_at word offset == 0
    then ((take (offset - 1) word ++ env_separator ∷ str2, next), offset)
    else if char_at word offset == env_escape
    then ((take offset word ++ drop (offset + 1) word, str2 ∷ next), offset + 1)
    else ((str, str2 ∷ next), offset)

abbrev pub escape_offset : ℕ → Option (Str × Str) → Option ℕ
escape_offset offset none = none
escape_offset offset (some (p, q)) = some (offset + length p + 1)

-- A round of the loop, at the offset behind the escape, and the rounds behind it.
unfoldable pub undo_round : (TermPlace × ℕ → TermPlace) → Str → TermPlace → Option ℕ → TermPlace
undo_round next word place none = place
undo_round next word place (some offset) = next (undo_escape word offset place)

-- The while loop over the escapes of `word`, which is not changed. Each round moves `offset` on, to
-- at most the length of the word.
unfoldable pub undo_escapes : ℕ → Str → ℕ → TermPlace → TermPlace
unfolding undo_round undo_escape break_at
undo_escapes zero word offset place = place
undo_escapes (suc f) word offset place =
    undo_round (λ (place', offset'). undo_escapes f word offset' place') word place
      (escape_offset offset (break_at env_escape (drop offset word)))

-- The for loop over the words. A round can take away the word behind its own.
unfoldable pub undo_words : ℕ → List Str → List Str
unfolding undo_escapes
undo_words zero list = []
undo_words (suc f) [] = []
undo_words (suc f) (word ∷ next) =
    let (str, next') = undo_escapes (length word + 1) word 0 (word, next) in
    str ∷ undo_words f next'

abbrev pub is_some {ℓ} : {A : Type ℓ} → Option A → Bool
is_some none = false
is_some (some a) = true

-- `importvar` up to its call of `vardef`: the definition. `value` starts at the `=`.
unfoldable pub importvar : Str → Splitter → List Str × Splitter
unfolding undo_words fsplit break_at
importvar value st =
    let (defn, st') = fsplit (env_separator ∷ []) (drop 1 value ∷ []) false st in
    (if is_some (break_at env_escape value) then undo_words (length defn + 1) defn else defn, st')

-- `hasprefix`
unfoldable pub hasprefix : Str → Str → Bool
hasprefix s [] = true
hasprefix [] (c ∷ prefix) = false
hasprefix (x ∷ s) (c ∷ prefix) = (x == c) && hasprefix s prefix

-- `env->vector`, the calls of `vardef` in their order, and the state of the splitter.
pub record Imported : Type 0 where
  pub raw : List Str
  pub vardefs : List (Str × List Str)
  pub splitter : Splitter

abbrev pub fn_prefix : Str
fn_prefix = codes "fn-"

abbrev pub set_prefix : Str
set_prefix = codes "set-"

-- `!protect || (!hasprefix(name, "fn-") && !hasprefix(name, "set-"))`
unfoldable pub is_imported : Bool → Str → Bool
unfolding hasprefix
is_imported protect name =
    not protect || (not (hasprefix name fn_prefix) && not (hasprefix name set_prefix))

-- A round for a string with a `=`, at the name as `%N` decodes it.
unfoldable pub import_named : Bool → Str → Imported → Option Str → Option Imported
unfolding importvar is_imported
import_named protect eq done none = none
import_named protect eq done (some name) =
    let (defn, st) = importvar eq done.splitter in
    some (
      if is_imported protect name
      then record done { vardefs = done.vardefs ++ (name, defn) ∷ []; splitter = st }
      else done)

-- A round of the loop in `initenv`.
unfoldable pub import_one : Bool → Str → Imported → Option (Str × Str) → Option Imported
unfolding import_named nconv
import_one protect envstr done none = some (record done { raw = done.raw ++ envstr ∷ [] })
import_one protect envstr done (some (buf, eq)) = import_named protect eq done (nconv buf)

unfoldable pub initenv_from : Bool → List Str → Imported → Option Imported
unfolding import_one break_at
initenv_from protect [] done = some done
initenv_from protect (envstr ∷ envp) done =
    import_one protect envstr done (break_at b'=' envstr) >>= initenv_from protect envp

unfoldable pub initenv : List Str → Bool → Splitter → Option Imported
unfolding initenv_from
initenv envp protect st =
    initenv_from protect envp (record { raw = []; vardefs = []; splitter = st })
