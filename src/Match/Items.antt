-- ===== src/Match/Items.antt =====
-- A pattern and its quote flags as a list of items, and what it means for a text to match one.
use desh.Common.{
  ℕ, zero, suc, ◌≡◌, ◌∙◌, ◌⊎◌, inl, inr, ◌&&◌, Bool, true, false, Option, none, some, List, [], ◌∷◌,
  ◌==◌, if◌then◌else◌, drop, Str, ap, refl,
}
use desh.Match.{Memory, Quote, quoted, unquoted, flags, is_raw, tailquote}
use desh.Match.Class.{Class, in_class, read_class}

pub data Item : Type 0 where
  many any : Item
  char : ℕ → Item
  set : Class → Item

-- The bytes that one item stands for; `many` stands for none by itself.
abbrev pub accepts : Item → ℕ → Bool
accepts many c = false
accepts any c = true
accepts (char x) c = x == c
accepts (set k) c = in_class k c

pub data Matches : List Item → Str → Type 0 where
  done : Matches [] []
  step :
      {i : Item} {is : List Item} {c : ℕ} {s : Str}
      → accepts i c ≡ true
      → Matches is s
      → Matches (i ∷ is) (c ∷ s)
  skip : {is : List Item} {s : Str} → Matches is s → Matches (many ∷ is) s
  more : {is : List Item} {c : ℕ} {s : Str} → Matches (many ∷ is) s → Matches (many ∷ is) (c ∷ s)

-- A left bracket whose class is not closed stands for itself.
abbrev pub bracket_item : Option Class → Item × ℕ
bracket_item none = (char b'[', 0)
bracket_item (some k) = (set k, k.size)

pub tailquote-tailquote : (q : Quote) (n : ℕ) → tailquote (tailquote q 1) n ≡ tailquote q (suc n)
tailquote-tailquote quoted n = refl
tailquote-tailquote unquoted n = refl
tailquote-tailquote (flags []) zero = refl
tailquote-tailquote (flags []) (suc n) = refl
tailquote-tailquote (flags (x ∷ f)) n = refl

pub tailquote-zero : (q : Quote) → tailquote q 0 ≡ q
tailquote-zero quoted = refl
tailquote-zero unquoted = refl
tailquote-zero (flags f) = refl

module _ {is : List Item} where
  pub step_inv :
      {i : Item} {c : ℕ} {s : Str}
      → (i ≡ many → ⊥)
      → Matches (i ∷ is) (c ∷ s)
      → (accepts i c ≡ true) × Matches is s
  step_inv n (step h d) = (h, d)
  step_inv n (skip d) = absurd (n refl)
  step_inv n (more d) = absurd (n refl)

  pub many_nil : Matches (many ∷ is) [] → Matches is []
  many_nil (skip d) = d

  pub many_cons :
      {c : ℕ} {s : Str} → Matches (many ∷ is) (c ∷ s) → Matches is (c ∷ s) ⊎ Matches (many ∷ is) s
  many_cons (step h d) = cc
  many_cons (skip d) = inl d
  many_cons (more d) = inr d

  -- Several stars are one.
  pub many_many : {s : Str} → Matches (many ∷ many ∷ is) s → Matches (many ∷ is) s
  many_many (step h d) = cc
  many_many (skip d) = d
  many_many (more d) = more (many_many d)

pub many_all : (s : Str) → Matches (many ∷ []) s
many_all [] = skip done
many_all (c ∷ s) = more (many_all s)

module _ ⦃mem : Memory⦄ where
  -- The item at a byte, with the pattern behind it, and how much of that belongs to the item.
  unfoldable pub item_at : ℕ → Bool → Str → Quote → Item × ℕ
  item_at c raw p q =
      if raw && (c == b'?')
      then (any, 0)
      else if raw && (c == b'*')
      then (many, 0)
      else if raw && (c == b'[')
      then bracket_item (read_class p q)
      else (char c, 0)

  -- The items of the pattern from its `n`th byte on.
  unfoldable pub items_from : ℕ → Str → Quote → List Item
  items_from n [] q = []
  items_from (suc n) (c ∷ p) q = items_from n p (tailquote q 1)
  items_from zero (c ∷ p) q =
      (item_at c (is_raw q 0) p (tailquote q 1)).0
      ∷ items_from (item_at c (is_raw q 0) p (tailquote q 1)).1 p (tailquote q 1)

  unfoldable pub items : Str → Quote → List Item
  unfolding item_at items_from read_class
  items p q = items_from 0 p q

  pub items_from-drop :
      (n : ℕ) (p : Str) (q : Quote) → items_from n p q ≡ items_from 0 (drop n p) (tailquote q n)
  unfolding items_from
  items_from-drop zero p q = rw tailquote-zero
  items_from-drop (suc n) [] q = refl
  items_from-drop (suc n) (c ∷ p) q =
      items_from-drop n p (tailquote q 1) ∙ ap (items_from 0 (drop n p)) (tailquote-tailquote q n)
