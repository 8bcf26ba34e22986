-- ===== src/Split/Fields.antt =====
-- What `fsplit` computes: the fields of each string, one after the other.
use desh.Common.{
  ℕ, ◌≡◌, refl, ap, sym, ◌∙◌, Bool, true, false, ◌&&◌, not, Option, none, some, List, [], ◌∷◌, ◌++◌,
  if◌then◌else◌, Str, Bool-cases, inl, inr, reverse, append-nil, append_assoc,
}
use desh.Split.{
  Splitter, separates, is_nil, push_chars, split_loop, close_word, split_all, splitstring,
}
use mathlib.Core.List.{reverse_aux, reverse-reverse}

-- Text in front of the first field.
unfoldable pub prepend : Str → List Str → List Str
prepend b [] = []
prepend b (x ∷ xs) = (b ++ x) ∷ xs

-- The parts of a string between its separators: one more than there are separators.
unfoldable pub fields : (ℕ → Bool) → Str → List Str
unfolding prepend
fields p [] = [] ∷ []
fields p (c ∷ s) = if p c then [] ∷ fields p s else prepend (c ∷ []) (fields p s)

-- The fields that are not empty.
unfoldable pub keep : List Str → List Str
keep [] = []
keep ([] ∷ xs) = keep xs
keep ((c ∷ w) ∷ xs) = (c ∷ w) ∷ keep xs

unfoldable pub chars : Str → List Str
chars [] = []
chars (c ∷ s) = (c ∷ []) ∷ chars s

-- The words that one string is split into.
unfoldable pub pieces : Str → Bool → Str → List Str
unfolding fields keep chars
pieces sep coalesce s =
    if coalesce
    then keep (fields (separates sep) s)
    else (if is_nil sep then chars s else fields (separates sep) s)

unfoldable pub all_pieces : Str → Bool → List Str → List Str
unfolding pieces
all_pieces sep coalesce [] = []
all_pieces sep coalesce (s ∷ ss) = pieces sep coalesce s ++ all_pieces sep coalesce ss

-- A list put in front of another one, backwards, as the words pile up in `value`.
pub pile : List Str → List Str → List Str
pile [] v = v
pile (x ∷ xs) v = pile xs (x ∷ v)

prepend_nil : (xs : List Str) → prepend [] xs ≡ xs
unfolding prepend
prepend_nil [] = refl
prepend_nil (x ∷ xs) = refl

prepend-prepend : (a b : Str) (xs : List Str) → prepend a (prepend b xs) ≡ prepend (a ++ b) xs
unfolding prepend
prepend-prepend a b [] = refl
prepend-prepend a b (x ∷ xs) = ap (λ w. w ∷ xs) (sym (append_assoc a b x))

close : Splitter → Splitter
close st = close_word st st.buffer

close-some :
    (buf : Str) (v : List Str) (co : Bool) (st : Splitter)
    → close (record st { coalesce = co; buffer = some buf; value = v })
      ≡ record st { coalesce = co; buffer = none; value = buf ∷ v }
unfolding close
close-some buf v co st = refl

close-none :
    (v : List Str) (co : Bool) (st : Splitter)
    → close (record st { coalesce = co; buffer = none; value = v })
      ≡ record st { coalesce = co; buffer = none; value = v }
unfolding close
close-none v co st = refl

-- The loop, and the end of the last word, if empty words count.
split_loop-fields :
    (s buf : Str) (v : List Str) (st : Splitter)
    → close (split_loop s (record st { coalesce = false; buffer = some buf; value = v }))
      ≡ record st {
        coalesce = false;
        buffer = none;
        value = pile (prepend buf (fields st.isifs s)) v;
      }
unfolding split_loop pile prepend fields
split_loop-fields [] buf v st =
    close-some buf v false st
    ∙ ap (λ w. record st { coalesce = false; buffer = none; value = w ∷ v }) (sym (append-nil buf))
split_loop-fields (c ∷ s) buf v st = elim (Bool-cases (st.isifs c)) [
  | inl e ↦
      rw (e, append-nil buf)
        (split_loop-fields s [] (buf ∷ v) st
          ∙ ap (λ w. record st { coalesce = false; buffer = none; value = pile w (buf ∷ v) })
              (prepend_nil (fields st.isifs s)))
  | inr e ↦ rw e (
      split_loop-fields s (buf ++ c ∷ []) v st
      ∙ ap (λ w. record st { coalesce = false; buffer = none; value = pile w v })
          (sym (prepend-prepend buf (c ∷ []) (fields st.isifs s))))
]

-- The buffer of a splitter that coalesces: none between two words, and never an empty word.
word : Str → Option Str
word [] = none
word (x ∷ w) = some (x ∷ w)

-- The same if empty words do not count.
split_loop-keep :
    (s w : Str) (v : List Str) (st : Splitter)
    → close (split_loop s (record st { coalesce = true; buffer = word w; value = v })) ≡ record st {
      coalesce = true;
      buffer = none;
      value = pile (keep (prepend w (fields st.isifs s))) v;
    }
unfolding split_loop pile prepend fields keep word
split_loop-keep [] [] v st = close-none v true st
split_loop-keep [] (x ∷ w) v st =
    close-some (x ∷ w) v true st
    ∙ ap (λ u. record st { coalesce = true; buffer = none; value = (x ∷ u) ∷ v })
        (sym (append-nil w))
split_loop-keep (c ∷ s) [] v st = elim (Bool-cases (st.isifs c)) [
  | inl e ↦ rw e (
      split_loop-keep s [] v st
      ∙ ap (λ u. record st { coalesce = true; buffer = none; value = pile (keep u) v })
          (prepend_nil (fields st.isifs s)))
  | inr e ↦ rw e (
      split_loop-keep s (c ∷ []) v st
      ∙ ap (λ u. record st { coalesce = true; buffer = none; value = pile (keep u) v })
          (sym (prepend_nil (prepend (c ∷ []) (fields st.isifs s)))))
]
split_loop-keep (c ∷ s) (x ∷ w) v st = elim (Bool-cases (st.isifs c)) [
  | inl e ↦
      rw (e, append-nil w)
        (split_loop-keep s [] ((x ∷ w) ∷ v) st
          ∙ ap
              (λ u. record st {
                coalesce = true;
                buffer = none;
                value = pile (keep u) ((x ∷ w) ∷ v);
              })
              (prepend_nil (fields st.isifs s)))
  | inr e ↦ rw e (
      split_loop-keep s (x ∷ (w ++ c ∷ [])) v st
      ∙ ap (λ u. record st { coalesce = true; buffer = none; value = pile (keep u) v })
          (sym (prepend-prepend (x ∷ w) (c ∷ []) (fields st.isifs s))))
]

push_chars-chars : (s : Str) (v : List Str) → push_chars s v ≡ pile (chars s) v
unfolding push_chars chars pile
push_chars-chars [] v = refl
push_chars-chars (c ∷ s) v = push_chars-chars s ((c ∷ []) ∷ v)

-- A splitter between two strings: its modes are those that `startsplit` set.
unfoldable pub ready : Str → Bool → List Str → Splitter → Splitter
ready sep coalescef v st = record st {
  coalesce = coalescef;
  splitchars = not coalescef && is_nil sep;
  buffer = none;
  value = v;
  isifs = separates sep;
}

splitstring-pieces :
    (sep : Str) (co : Bool) (s : Str) (v : List Str) (st : Splitter)
    → splitstring s true (ready sep co v st) ≡ ready sep co (pile (pieces sep co s) v) st
unfolding splitstring ready pieces word close
splitstring-pieces sep true s v st =
    split_loop-keep s [] v (record st { splitchars = false; isifs = separates sep })
    ∙ ap
        (λ u. record st {
          coalesce = true;
          splitchars = false;
          buffer = none;
          value = pile (keep u) v;
          isifs = separates sep;
        })
        (prepend_nil (fields (separates sep) s))
splitstring-pieces [] false s v st =
    ap
      (λ u. record st {
        coalesce = false;
        splitchars = true;
        buffer = none;
        value = u;
        isifs = separates [];
      })
      (push_chars-chars s v)
splitstring-pieces (x ∷ sep) false s v st =
    split_loop-fields s [] v (record st { splitchars = false; isifs = separates (x ∷ sep) })
    ∙ ap
        (λ u. record st {
          coalesce = false;
          splitchars = false;
          buffer = none;
          value = pile u v;
          isifs = separates (x ∷ sep);
        })
        (prepend_nil (fields (separates (x ∷ sep)) s))

pile-append : (xs ys v : List Str) → pile ys (pile xs v) ≡ pile (xs ++ ys) v
unfolding pile
pile-append [] ys v = refl
pile-append (x ∷ xs) ys v = pile-append xs ys (x ∷ v)

pub split_all-pieces :
    (sep : Str) (co : Bool) (ss : List Str) (v : List Str) (st : Splitter)
    → split_all ss (ready sep co v st) ≡ ready sep co (pile (all_pieces sep co ss) v) st
unfolding split_all all_pieces pile
split_all-pieces sep co [] v st = refl
split_all-pieces sep co (s ∷ ss) v st =
    ap (split_all ss) (splitstring-pieces sep co s v st)
    ∙ split_all-pieces sep co ss (pile (pieces sep co s) v) st
    ∙ ap (λ u. ready sep co u st) (pile-append (pieces sep co s) (all_pieces sep co ss) v)

pile-reverse : (xs v : List Str) → pile xs v ≡ reverse_aux xs v
unfolding pile
pile-reverse [] v = refl
pile-reverse (x ∷ xs) v = pile-reverse xs (x ∷ v)

pub reverse-pile : (xs : List Str) → reverse (pile xs []) ≡ xs
reverse-pile xs = ap reverse (pile-reverse xs []) ∙ reverse-reverse xs
