-- ===== src/Split/Chunks.antt =====
-- Input to `splitstring` in chunks.
use desh.Common.{
  ℕ, ◌≡◌, refl, ap, sym, ◌∙◌, ◌⊎◌, Bool, true, false, Option, none, some, List, [], ◌∷◌, ◌++◌,
  if◌then◌else◌, Str, Bool-cases, if_split, ◌>>=◌, inl, inr, arith,
}
use desh.Split.{
  Splitter, push_chars, split_byte, split_loop, open_word, close_word, splitstring, passes,
  checked_splitstring,
}

push_chars-append :
    (a b : Str) (v : List Str) → push_chars (a ++ b) v ≡ push_chars b (push_chars a v)
unfolding push_chars
push_chars-append [] b v = refl
push_chars-append (c ∷ a) b v = push_chars-append a b ((c ∷ []) ∷ v)

split_loop-append :
    (a b : Str) (st : Splitter) → split_loop (a ++ b) st ≡ split_loop b (split_loop a st)
unfolding split_loop
split_loop-append [] b st = refl
split_loop-append (c ∷ a) b st = split_loop-append a b (split_byte c st st.buffer)

splitstring-chars :
    (a b : Str) (endword : Bool) (st : Splitter)
    → st.splitchars ≡ true
    → splitstring b endword (splitstring a false st) ≡ splitstring (a ++ b) endword st
unfolding splitstring
splitstring-chars a b endword st h = rw (h, push_chars-append a b st.value) refl

-- How `splitstring` begins and ends when it does not split at every byte.
unfoldable pub reopen : Splitter → Splitter
reopen st = open_word st st.buffer

abbrev finish : Bool → Splitter → Splitter
finish endword st = if endword then close_word st st.buffer else st

splitstring-finish :
    (s : Str) (endword : Bool) (st : Splitter)
    → st.splitchars ≡ false
    → splitstring s endword st ≡ finish endword (split_loop s (reopen st))
unfolding splitstring reopen
splitstring-finish s endword st h = rw h refl

split_byte-splitchars :
    (c : ℕ) (st : Splitter) (o : Option Str) → (split_byte c st o).splitchars ≡ st.splitchars
split_byte-splitchars c st none = elim (Bool-cases (st.isifs c)) [
  | inl e ↦ rw e refl
  | inr e ↦ rw e refl
]
split_byte-splitchars c st (some buf) = elim (Bool-cases (st.isifs c)) [
  | inl e ↦ rw e refl
  | inr e ↦ rw e refl
]

pub split_loop-splitchars : (s : Str) (st : Splitter) → (split_loop s st).splitchars ≡ st.splitchars
unfolding split_loop
split_loop-splitchars [] st = refl
split_loop-splitchars (c ∷ s) st =
    split_loop-splitchars s (split_byte c st st.buffer) ∙ split_byte-splitchars c st st.buffer

pub reopen-splitchars : (st : Splitter) → (reopen st).splitchars ≡ st.splitchars
unfolding reopen
reopen-splitchars st = go st.buffer
  where
    go : (o : Option Str) → (open_word st o).splitchars ≡ st.splitchars
    go none = elim (Bool-cases st.coalesce) [ inl e ↦ rw e refl | inr e ↦ rw e refl ]
    go (some buf) = refl

-- There is nothing to open: a word is open, or none is wanted.
IsSettled : Splitter → Option Str → Type 0
IsSettled st o = (st.coalesce ≡ true) ⊎ ((buf : Str) × (o ≡ some buf))

split_byte-IsSettled :
    (c : ℕ) (st : Splitter) (o : Option Str)
    → IsSettled st o
    → IsSettled (split_byte c st o) (split_byte c st o).buffer
unfolding IsSettled
split_byte-IsSettled c st none (inl co) = elim (Bool-cases (st.isifs c)) [
  | inl e ↦ rw e (inl co)
  | inr e ↦ rw e (inl co)
]
split_byte-IsSettled c st none (inr (buf, e)) = ground arith
split_byte-IsSettled c st (some buf) h = elim (Bool-cases (st.isifs c)) [
  | inl e ↦ elim (Bool-cases st.coalesce) [
    | inl co ↦ rw e (inl co)
    | inr co ↦ rw (e, co) (inr ([], refl))
  ]
  | inr e ↦ rw e (inr (buf ++ c ∷ [], refl))
]

split_loop-IsSettled :
    (s : Str) (st : Splitter)
    → IsSettled st st.buffer
    → IsSettled (split_loop s st) (split_loop s st).buffer
unfolding split_loop
split_loop-IsSettled [] st h = h
split_loop-IsSettled (c ∷ s) st h =
    split_loop-IsSettled s (split_byte c st st.buffer) (split_byte-IsSettled c st st.buffer h)

open_word-IsSettled :
    (st : Splitter) (o : Option Str)
    → st.buffer ≡ o
    → IsSettled (open_word st o) (open_word st o).buffer
unfolding IsSettled
open_word-IsSettled st none b = elim (Bool-cases st.coalesce) [
  | inl co ↦ rw co (inl refl)
  | inr co ↦ rw co (inr ([], refl))
]
open_word-IsSettled st (some buf) b = inr (buf, b)

IsSettled-open_word : (st : Splitter) (o : Option Str) → IsSettled st o → open_word st o ≡ st
unfolding IsSettled
IsSettled-open_word st none (inl co) = rw co refl
IsSettled-open_word st none (inr (buf, e)) = ground arith
IsSettled-open_word st (some buf) h = refl

reopen-split_loop :
    (s : Str) (st : Splitter) → reopen (split_loop s (reopen st)) ≡ split_loop s (reopen st)
unfolding reopen
reopen-split_loop s st =
    let st' = split_loop s (open_word st st.buffer) in
    IsSettled-open_word st' st'.buffer
      (split_loop-IsSettled s (open_word st st.buffer) (open_word-IsSettled st st.buffer refl))

chunks :
    (a b : Str) (endword : Bool) (st : Splitter)
    → splitstring b endword (splitstring a false st) ≡ splitstring (a ++ b) endword st
chunks a b endword st = elim (Bool-cases st.splitchars) [
  | inl e ↦ splitstring-chars a b endword st e
  | inr e ↦
      let st' = split_loop a (reopen st) in
      ap (splitstring b endword) (splitstring-finish a false st e)
      ∙ splitstring-finish b endword st'
          (split_loop-splitchars a (reopen st) ∙ reopen-splitchars st ∙ e)
      ∙ ap (λ t. finish endword (split_loop b t)) (reopen-split_loop a st)
      ∙ ap (finish endword) (sym (split_loop-append a b (reopen st)))
      ∙ sym (splitstring-finish (a ++ b) endword st e)
]

pub passes_unless : (chars : Bool) (o : Option Str) → chars ≡ false → passes chars o ≡ true
passes_unless chars none h = refl
passes_unless chars (some buf) h = rw h refl

-- A string whose last word is not ended leaves the assertion as it was.
splitstring-passes :
    (s : Str) (st : Splitter)
    → passes st.splitchars st.buffer ≡ true
    → passes (splitstring s false st).splitchars (splitstring s false st).buffer ≡ true
unfolding splitstring reopen
splitstring-passes s st h =
    if_split (λ (t : Splitter). passes t.splitchars t.buffer ≡ true) st.splitchars _ _ (λ e. h)
      (λ e. passes_unless _ _ (split_loop-splitchars s (reopen st) ∙ reopen-splitchars st ∙ e))

-- Input can come in chunks: splitting a string without ending its last word and then another one is splitting the two as one string, in every mode and from every state. The assertion of `splitstring` fails in the one case if it does in the other.
pub splitstring-splitstring :
    (a b : Str) (endword : Bool) (st : Splitter)
    → (checked_splitstring a false st >>= (λ st'. checked_splitstring b endword st'))
      ≡ checked_splitstring (a ++ b) endword st
unfolding checked_splitstring
splitstring-splitstring a b endword st = elim (Bool-cases (passes st.splitchars st.buffer)) [
  | inl e ↦ rw (e, splitstring-passes a st e, chunks a b endword st) refl
  | inr e ↦ rw e refl
]
