-- ===== src/Match/Extract/Fills.antt =====
-- The words that `extractsinglematch` returns are what the wildcards of the pattern stand for.
use mathlib.Core.List.{reverse_aux}
use desh.Common.{
  ℕ, zero, suc, ◌≤◌, ◌≡◌, ◌≢◌, ◌∙◌, ◌⊎◌, refl, sym, ap, Bool, true, false, not, some, List, [], ◌∷◌,
  ◌++◌, map, drop, length, Str, Bool-cases, inl, inr,
}
use desh.Match.{Memory, Quote, quoted, unquoted, flags, is_quoted, is_raw, tailquote}
use desh.Match.Class.{Class, in_class}
use desh.Match.Items.{
  Item, many, any, char, set, Matches, items_from, tailquote-tailquote, many_cons, many_nil,
}
use desh.Match.Reflects.{must_consume, Reflects}
use desh.Match.Extract.{Extracted, found, Extractor, first_match}

-- The text is what the items stand for, with one word for each wildcard, in their order.
pub data Fills : List Item → List Str → Str → Type 0 where
  end : Fills [] [] []
  plain :
      {c : ℕ} {is : List Item} {ws : List Str} {s : Str}
      → Fills is ws s
      → Fills (char c ∷ is) ws (c ∷ s)
  one :
      {x : ℕ} {is : List Item} {ws : List Str} {s : Str}
      → Fills is ws s
      → Fills (any ∷ is) ((x ∷ []) ∷ ws) (x ∷ s)
  member :
      {k : Class} {x : ℕ} {is : List Item} {ws : List Str} {s : Str}
      → in_class k x ≡ true
      → Fills is ws s
      → Fills (set k ∷ is) ((x ∷ []) ∷ ws) (x ∷ s)
  run :
      {is : List Item} {w : Str} {ws : List Str} {s t : Str}
      → w ++ t ≡ s
      → Fills is ws t
      → Fills (many ∷ is) (w ∷ ws) s

-- No two stars side by side.
abbrev pub Separated : List Item → Type 0
Separated [] = Unit
Separated (many ∷ many ∷ is) = ⊥
Separated (i ∷ is) = Separated is

-- Each byte of the word has a flag, 'q' or 'r'.
abbrev pub WellQuoted : Str → Quote → Type 0
WellQuoted [] q = Unit
WellQuoted (c ∷ p) q = (is_quoted q 0 ≡ not (is_raw q 0)) × WellQuoted p (tailquote q 1)

-- The extraction gives, in front of the result `r` that is built backwards, words that fill `is`.
abbrev pub Fits : Extracted → List Str → List Item → Str → Type 0
Fits o r is s = (ws : List Str) × (o ≡ found (reverse_aux ws r)) × Fills is ws s

pub WellQuoted-drop :
    (n : ℕ) (p : Str) (q : Quote) → WellQuoted p q → WellQuoted (drop n p) (tailquote q n)
WellQuoted-drop zero p quoted h = h
WellQuoted-drop zero p unquoted h = h
WellQuoted-drop zero p (flags f) h = h
WellQuoted-drop (suc n) [] q h = tt
WellQuoted-drop (suc n) (c ∷ p) q h =
    rw (← tailquote-tailquote q n) (WellQuoted-drop n p (tailquote q 1) h.1)

pub tailquote-ne-quoted : (q : Quote) (n : ℕ) → q ≢ quoted → tailquote q n ≢ quoted
tailquote-ne-quoted quoted n h = h
tailquote-ne-quoted unquoted n h = h
tailquote-ne-quoted (flags f) n h = λ e. cc

pub Separated-tail : (i : Item) (is : List Item) → Separated (i ∷ is) → Separated is
Separated-tail many [] h = tt
Separated-tail many (many ∷ is) h = absurd h
Separated-tail many (any ∷ is) h = h
Separated-tail many (char c ∷ is) h = h
Separated-tail many (set k ∷ is) h = h
Separated-tail any is h = h
Separated-tail (char c) is h = h
Separated-tail (set k) is h = h

pub Separated-many : (i : Item) (is : List Item) → Separated (many ∷ i ∷ is) → i ≢ many
Separated-many many is h = absurd h
Separated-many any is h = λ e. cc
Separated-many (char c) is h = λ e. cc
Separated-many (set k) is h = λ e. cc

-- Where a star stands before another item, `first_match` finds a place and asserts nothing false.
pub first_match-some :
    (matches : Str → Bool) (i : Item) (is : List Item) (s : Str)
    → i ≢ many
    → ((t : Str) → Reflects (matches t) (Matches (i ∷ is) t))
    → Matches (many ∷ i ∷ is) s
    → (w t : Str) × (first_match matches s ≡ some (w, t)) × (w ++ t ≡ s) × (matches t ≡ true)
unfolding first_match
first_match-some matches i is [] n ok d = absurd (must_consume n (many_nil d))
first_match-some matches i is (x ∷ s) n ok d = elim (Bool-cases (matches (x ∷ s))) [
  | inl e ↦ ([], x ∷ s, rw e, refl, e)
  | inr e ↦
      let (w, t, p, q, r) = first_match-some matches i is s n ok (later e (many_cons d)) in
      (x ∷ w, t, rw (e, p), ap (λ v. x ∷ v) q, r)
]
  where
    later :
        matches (x ∷ s) ≡ false
        → Matches (i ∷ is) (x ∷ s) ⊎ Matches (many ∷ i ∷ is) s
        → Matches (many ∷ i ∷ is) s
    later e (inl here) = cc (sym e ∙ (ok (x ∷ s)).1 here)
    later e (inr rest) = rest

pub Fits-cons :
    (o : Extracted) (r : List Str) (i : Item) (is : List Item) (w : Str) (s t : Str)
    → ((ws : List Str) → Fills is ws t → Fills (i ∷ is) (w ∷ ws) s)
    → Fits o (w ∷ r) is t
    → Fits o r (i ∷ is) s
Fits-cons o r i is w s t fill (ws, e, f) = (w ∷ ws, e, fill ws f)

module _ ⦃mem : Memory⦄ where
  -- What the loop is assumed to do with every pattern that is no longer than `n`.
  abbrev pub Correct : ℕ → Extractor → Type 0
  Correct n rest =
      (s p : Str) (q : Quote) (r : List Str)
      → length p ≤ n
      → q ≢ quoted
      → WellQuoted p q
      → Separated (items_from 0 p q)
      → Matches (items_from 0 p q) s
      → Fits (rest s p q r) r (items_from 0 p q) s

  pub Fills-char : (p : Str) → Fills (map char p) [] p
  Fills-char [] = end
  Fills-char (c ∷ p) = plain (Fills-char p)
