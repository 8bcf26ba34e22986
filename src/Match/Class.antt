-- ===== src/Match/Class.antt =====
-- Character classes read once, apart from the byte that is matched against them.
use desh.Common.{
  ℕ, ◌+◌, ◌≡◌, refl, ap, ◌∙◌, if_push, Bool, true, false, ◌&&◌, ◌||◌, Option, none, some, List, [],
  ◌∷◌, ◌==◌, if◌then◌else◌, drop, Str, char_at, arith,
}
use mathlib.Core.Bool.{xor}
use mathlib.Core.Option
use desh.Match.{
  Memory, Quote, Spot, spot_of, advance, char_le, Range, range_fail, range_error, range_end, closes,
  is_range, range_loop, range_result, range_first, negates, rangematch,
}

pub data Member : Type 0 where
  single : ℕ → Member
  span : ℕ → ℕ → Member

abbrev pub includes : Member → ℕ → Bool
includes (single x) c = x == c
includes (span x y) c = char_le x c && char_le c y

abbrev pub any_includes : List Member → ℕ → Bool
any_includes [] c = false
any_includes (m ∷ ms) c = includes m c || any_includes ms c

-- `size` counts the bytes behind the left bracket, the right bracket included.
pub record Class : Type 0 where
  pub negated : Bool
  pub members : List Member
  pub size : ℕ

abbrev pub in_class : Class → ℕ → Bool
in_class k c = xor (any_includes k.members c) k.negated

module _ ⦃mem : Memory⦄ where
  -- The members up to the closing bracket, and its offset.
  pub read_members : Str → Spot → Option (List Member × ℕ)
  read_members [] q = none
  read_members (x ∷ d ∷ y ∷ p) q =
      let range = Option.map (λ (ms, n). (span x y ∷ ms, n + 3)) (read_members p (advance q 3)) in
      let one =
        Option.map (λ (ms, n). (single x ∷ ms, n + 1)) (read_members (d ∷ y ∷ p) (advance q 1)) in
      if closes x q then some ([], 0) else if is_range d y q then range else one
  read_members (x ∷ p) q =
      if closes x q
      then some ([], 0)
      else Option.map (λ (ms, n). (single x ∷ ms, n + 1)) (read_members p (advance q 1))

  -- The class, from behind the left bracket: a tilde negates it, and a right bracket that comes
  -- first is a member. `none` stands for a class that is not closed.
  pub read_first : Str → Spot → Option (List Member × ℕ)
  read_first p q =
      if closes (char_at p 0) q
      then Option.map (λ (ms, n). (single b']' ∷ ms, n + 1)) (read_members (drop 1 p) (advance q 1))
      else read_members p q

  -- `n` bytes stand before the members, and the right bracket behind them.
  abbrev pub as_class : Bool → ℕ → List Member × ℕ → Class
  as_class neg n (ms, k) = record { negated = neg; members = ms; size = k + n + 1 }

  unfoldable pub read_class : Str → Quote → Option Class
  unfolding read_members read_first
  read_class p q =
      if negates p (spot_of q)
      then Option.map (as_class true 1) (read_first (drop 1 p) (advance (spot_of q) 1))
      else Option.map (as_class false 0) (read_first p (spot_of q))

  -- What the loop returns at the byte `c`, by the members that it has still to read.
  abbrev loop_result : ℕ → ℕ → Bool → Option (List Member × ℕ) → Option (ℕ × Bool)
  loop_result c n matched none = none
  loop_result c n matched (some (ms, k)) = some (n + k, matched || any_includes ms c)

  loop_result_step :
      (c n k : ℕ) (matched : Bool) (m : Member) (r : Option (List Member × ℕ))
      → loop_result c (n + k) (matched || includes m c) r
        ≡ loop_result c n matched (Option.map (λ (ms, j). (m ∷ ms, j + k)) r)
  loop_result_step c n k matched m none = refl
  loop_result_step c n k true m (some (ms, j)) = ground arith
  loop_result_step c n k false m (some (ms, j)) = ground arith

  loop_result_start :
      (c n : ℕ) (matched : Bool) → some (n, matched) ≡ loop_result c n matched (some ([], 0))
  loop_result_start c n true = ground arith
  loop_result_start c n false = ground arith

  range_loop-read_members :
      (p : Str) (q : Spot) (c n : ℕ) (matched : Bool)
      → range_loop p q c n matched ≡ loop_result c n matched (read_members p q)
  unfolding range_loop read_members
  range_loop-read_members [] q c n matched = refl
  range_loop-read_members (x ∷ d ∷ y ∷ p) q c n matched =
      let f = loop_result c n matched in
      if_push f (closes x q) _ _ (loop_result_start c n matched) (
        if_push f (is_range d y q) _ _
          (range_loop-read_members p (advance q 3) c (n + 3) (matched || includes (span x y) c)
            ∙ loop_result_step c n 3 matched (span x y) (read_members p (advance q 3)))
          (range_loop-read_members (d ∷ y ∷ p) (advance q 1) c (n + 1) (matched || (x == c))
            ∙ loop_result_step c n 1 matched (single x) (read_members (d ∷ y ∷ p) (advance q 1))))
  range_loop-read_members (x ∷ []) q c n matched =
      if_push (loop_result c n matched) (closes x q) _ _ (loop_result_start c n matched) refl
  range_loop-read_members (x ∷ d ∷ []) q c n matched =
      if_push (loop_result c n matched) (closes x q) _ _ (loop_result_start c n matched) (
        range_loop-read_members (d ∷ []) (advance q 1) c (n + 1) (matched || (x == c))
        ∙ loop_result_step c n 1 matched (single x) (read_members (d ∷ []) (advance q 1)))

  range_first-read_first :
      (p : Str) (q : Spot) (c n : ℕ) → range_first p q c n ≡ loop_result c n false (read_first p q)
  unfolding range_first read_first
  range_first-read_first p q c n =
      let rest = read_members (drop 1 p) (advance q 1) in
      if_push (loop_result c n false) (closes (char_at p 0) q) _ _
        (range_loop-read_members (drop 1 p) (advance q 1) c (n + 1) (c == b']')
          ∙ (ap (λ b. loop_result c (n + 1) b rest) (ground arith)
              ∙ loop_result_step c n 1 false (single b']') rest))
        (range_loop-read_members p q c n false)

  -- The answer of `rangematch` at the byte `c`, by the class that was read.
  abbrev pub class_result : ℕ → Option Class → Range
  class_result c none = range_error
  class_result c (some k) = if in_class k c then range_end k.size else range_fail

  range_result-loop_result :
      (c n : ℕ) (neg : Bool) (r : Option (List Member × ℕ))
      → range_result neg (loop_result c n false r) ≡ class_result c (Option.map (as_class neg n) r)
  range_result-loop_result c n neg none = refl
  range_result-loop_result c n neg (some (ms, k)) = ground arith

  -- `rangematch` reads the class that `read_class` reads, whatever the byte is: it reports an unclosed class as RANGE_ERROR, and otherwise the offset behind the class if the byte is in it, and RANGE_FAIL if not.
  pub rangematch-read_class :
      (p : Str) (q : Quote) (c : ℕ) → rangematch p q c ≡ class_result c (read_class p q)
  unfolding rangematch read_class
  rangematch-read_class p q c =
      if_push (class_result c) (negates p (spot_of q)) _ _
        (ap (range_result true) (range_first-read_first (drop 1 p) (advance (spot_of q) 1) c 1)
          ∙ range_result-loop_result c 1 true (read_first (drop 1 p) (advance (spot_of q) 1)))
        (ap (range_result false) (range_first-read_first p (spot_of q) c 0)
          ∙ range_result-loop_result c 0 false (read_first p (spot_of q)))
