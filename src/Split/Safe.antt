-- ===== src/Split/Safe.antt =====
-- The assertion of `splitstring` in src/split.c, in the calls of `fsplit`.
use desh.Common.{◌≡◌, refl, ◌∙◌, Bool, true, Option, none, some, List, [], ◌∷◌, if_split, Str}
use desh.Split.{
  Splitter, startsplit, remember, split_loop, close_word, splitstring, passes, checked_splitstring,
  split_all, checked_split_all,
}
use desh.Split.Chunks.{reopen, split_loop-splitchars, reopen-splitchars, passes_unless}

close_word-splitchars :
    (st : Splitter) (o : Option Str) → (close_word st o).splitchars ≡ st.splitchars
close_word-splitchars st none = refl
close_word-splitchars st (some buf) = refl

-- A call with a word that ends leaves the assertion as it was.
ended-passes :
    (s : Str) (st : Splitter)
    → passes st.splitchars st.buffer ≡ true
    → passes (splitstring s true st).splitchars (splitstring s true st).buffer ≡ true
unfolding splitstring reopen
ended-passes s st h =
    if_split (λ (t : Splitter). passes t.splitchars t.buffer ≡ true) st.splitchars _ _ (λ e. h)
      (λ e. passes_unless _ _ (
        close_word-splitchars (split_loop s (reopen st)) (split_loop s (reopen st)).buffer
        ∙ split_loop-splitchars s (reopen st)
        ∙ reopen-splitchars st
        ∙ e))

checked_split_all-split_all :
    (ss : List Str) (st : Splitter)
    → passes st.splitchars st.buffer ≡ true
    → checked_split_all ss st ≡ some (split_all ss st)
unfolding checked_split_all split_all checked_splitstring
checked_split_all-split_all [] st h = refl
checked_split_all-split_all (s ∷ ss) st h =
    rw h (checked_split_all-split_all ss (splitstring s true st) (ended-passes s st h))

remember-buffer : (sep : Str) (st : Splitter) → (remember sep st).buffer ≡ st.buffer
remember-buffer sep st =
    if_split (λ (t : Splitter). t.buffer ≡ st.buffer) _ _ _ (λ e. refl) (λ e. refl)

no_buffer-passes : (chars : Bool) (o : Option Str) → o ≡ none → passes chars o ≡ true
no_buffer-passes chars o h = rw h refl

-- Behind `startsplit`, whatever was split before, the loop of `fsplit` over its strings fails no assertion of `splitstring`, in every mode.
pub startsplit-split_all :
    (sep : Str) (coalesce : Bool) (ss : List Str) (st : Splitter)
    → checked_split_all ss (startsplit sep coalesce st)
      ≡ some (split_all ss (startsplit sep coalesce st))
unfolding startsplit
startsplit-split_all sep coalesce ss st =
    checked_split_all-split_all ss (startsplit sep coalesce st)
      (no_buffer-passes _ _ (remember-buffer sep _))
