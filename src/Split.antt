-- ===== src/Split.antt =====
-- src/split.c: splitting strings at separators. The static variables of the file are the state.
pub mod Cache
pub mod Fields
pub mod Laws
pub mod Chunks
pub mod Safe
pub mod Join
mod Tests
use desh.Common.{
  ℕ, suc, ◌+◌, Bool, true, false, ◌&&◌, ◌||◌, not, Option, none, some, List, [], ◌∷◌, ◌++◌, ltb,
  ◌==◌, ◌>>=◌, if◌then◌else◌, length, Str, streq, reverse,
}

-- `value` is the list so far, built backwards; `buffer` is NULL between words.
pub record Splitter : Type 0 where
  pub coalesce : Bool
  pub splitchars : Bool
  pub buffer : Option Str
  pub value : List Str
  pub ifsvalid : Bool
  pub ifs : Str
  pub isifs : ℕ → Bool

-- The loop that fills `isifs`; the byte 0 always separates.
abbrev pub separates : Str → ℕ → Bool
separates [] c = c == 0
separates (x ∷ sep) c = (x == c) || separates sep c

abbrev pub is_nil : Str → Bool
is_nil [] = true
is_nil (x ∷ s) = false

-- `sizeof ifs`
abbrev pub ifs_size : ℕ
ifs_size = 10

-- The separators are kept in `ifs` if they fit; while they stay the same, so does the table.
abbrev pub remember : Str → Splitter → Splitter
remember sep st =
    if not st.ifsvalid || not (streq sep st.ifs)
    then record st {
      ifsvalid = ltb (length sep + 1) ifs_size;
      ifs = if ltb (length sep + 1) ifs_size then sep else st.ifs;
      isifs = separates sep;
    }
    else st

unfoldable pub startsplit : Str → Bool → Splitter → Splitter
startsplit sep coalescef st = remember sep (record st {
  value = [];
  buffer = none;
  coalesce = coalescef;
  splitchars = not coalescef && is_nil sep;
})

-- `while (s < inend)` under `splitchars`: a word for each byte.
pub push_chars : Str → List Str → List Str
push_chars [] value = value
push_chars (c ∷ s) value = push_chars s ((c ∷ []) ∷ value)

-- The body of the main loop, by `buf`.
abbrev pub split_byte : ℕ → Splitter → Option Str → Splitter
split_byte c st none =
    if st.isifs c then record st { buffer = none } else record st { buffer = some (c ∷ []) }
split_byte c st (some buf) =
    if st.isifs c
    then record st { value = buf ∷ st.value; buffer = if st.coalesce then none else some [] }
    else record st { buffer = some (buf ++ c ∷ []) }

pub split_loop : Str → Splitter → Splitter
split_loop [] st = st
split_loop (c ∷ s) st = split_loop s (split_byte c st st.buffer)

-- `if (!coalesce && buf == NULL) buf = openbuffer(0)`
abbrev pub open_word : Splitter → Option Str → Splitter
open_word st none = if st.coalesce then st else record st { buffer = some [] }
open_word st (some buf) = st

-- The buffer, if there is one, becomes a word: the end of `splitstring` and the start of `endsplit`.
abbrev pub close_word : Splitter → Option Str → Splitter
close_word st none = st
close_word st (some buf) = record st { value = buf ∷ st.value; buffer = none }

-- `splitstring` behind its assertion.
unfoldable pub splitstring : Str → Bool → Splitter → Splitter
unfolding push_chars split_loop
splitstring s endword st =
    if st.splitchars
    then record st { value = push_chars s st.value }
    else (let st' = split_loop s (open_word st st.buffer) in
        if endword then close_word st' st'.buffer else st')

-- `assert(buf == NULL)`, under `splitchars`
abbrev pub passes : Bool → Option Str → Bool
passes chars none = true
passes chars (some buf) = not chars

-- `splitstring`; `none` where the assertion fails.
unfoldable pub checked_splitstring : Str → Bool → Splitter → Option Splitter
unfolding splitstring
checked_splitstring s endword st =
    if passes st.splitchars st.buffer then some (splitstring s endword st) else none

unfoldable pub endsplit : Splitter → List Str × Splitter
endsplit st = let st' = close_word st st.buffer in (reverse st'.value, record st' { value = [] })

-- The loop over the list of strings.
pub split_all : List Str → Splitter → Splitter
split_all [] st = st
split_all (s ∷ ss) st = split_all ss (splitstring s true st)

-- The same loop, which stops at an assertion that fails.
pub checked_split_all : List Str → Splitter → Option Splitter
unfolding checked_splitstring
checked_split_all [] st = some st
checked_split_all (s ∷ ss) st = checked_splitstring s true st >>= (λ st'. checked_split_all ss st')

unfoldable pub fsplit : Str → List Str → Bool → Splitter → List Str × Splitter
unfolding split_all startsplit splitstring endsplit
fsplit sep ss coalesce st = endsplit (split_all ss (startsplit sep coalesce st))
