-- ===== src/Match/Extract.antt =====
-- src/match.c: `extractsinglematch` and `extractmatches`.
pub mod Fills
pub mod Rounds
pub mod Loop
use desh.Common.{
  ℕ, zero, suc, ◌+◌, Bool, true, false, ◌&&◌, not, ◌||◌, List, [], ◌∷◌, ◌++◌, ◌==◌, if◌then◌else◌,
  drop, length, Str, char_at, reverse, Option, none, some,
}
use mathlib.Core.Option
use desh.Match.{
  Memory, Quote, quoted, is_quoted, tailquote, Range, range_fail, range_error, range_end,
  rangematch, match,
}
use desh.Match.Wild.{haswild}
use desh.Match.Words.{Pattern}

-- A list, or an assertion that fails: `assert` calls `abort` unless ASSERTIONS is turned off.
-- `out_of_fuel` belongs to the model only.
pub data Extracted : Type 0 where
  found : List Str → Extracted
  assert_failed out_of_fuel : Extracted

-- A call with the text, the pattern, its quoting, and the result so far.
abbrev pub Extractor : Type 0
Extractor = Str → Str → Quote → List Str → Extracted

-- `for (begin = s;; s++)`: the bytes from `begin` up to the first `s` at which the rest of the
-- pattern matches, and that `s`; `none` if the assertion `*s != '\0'` fails first.
pub first_match : (Str → Bool) → Str → Option (Str × Str)
first_match matches [] = none
first_match matches (x ∷ s) =
    let later = Option.map (λ (w, t). (x ∷ w, t)) (first_match matches s) in
    if matches (x ∷ s) then some ([], x ∷ s) else later

-- The returns in `case '*'`, with the pattern behind the star.
pub after_star : Extractor → Str → Quote → List Str → Option (Str × Str) → Extracted
after_star single p q result none = assert_failed
after_star single p q result (some (w, s)) =
    if haswild p q then single s p q (w ∷ result) else found (w ∷ result)

module _ ⦃mem : Memory⦄ where
  pub extract_star : Extractor → Str → Str → Quote → List Str → Extracted
  extract_star single s [] q result = found (s ∷ result)
  extract_star single s p q result = after_star single p q result (first_match (λ t. match t p q) s)

  -- `case '['`, with the fall through to `case '?'`.
  pub extract_class : Extractor → Str → Str → Quote → List Str → Range → Extracted
  extract_class rest s p q result range_fail = assert_failed
  extract_class rest s p q result range_error =
      if char_at s 0 == b'[' then rest (drop 1 s) p q result else assert_failed
  extract_class rest s p q result (range_end j) =
      rest (drop 1 s) (drop j p) (tailquote q j) ((char_at s 0 ∷ []) ∷ result)

  -- The switch on the byte `c` of the pattern. `single` is the function itself, `rest` its loop.
  pub extract_switch : Extractor → Extractor → ℕ → Extractor
  extract_switch single rest c s p q result =
      if c == b'*'
      then extract_star single s p q result
      else if c == b'['
      then extract_class rest s p q result (rangematch p q (char_at s 0))
      else if c == b'?'
      then rest (drop 1 s) p q ((char_at s 0 ∷ []) ∷ result)
      else rest (drop 1 s) p q result

  -- The test at the start, before the loop `rest`.
  pub extract_single : Extractor → Extractor
  extract_single rest s p q result =
      if not (haswild p q) || not (match s p q) then found [] else rest s p q result

  -- The for loop over the pattern. Each round shortens the pattern, which the fuel bounds.
  pub extract_loop : ℕ → Extractor
  extract_loop zero s p q result = out_of_fuel
  extract_loop (suc f) s [] q result = found result
  extract_loop (suc f) s (c ∷ p) q result =
      if is_quoted q 0
      then extract_loop f (drop 1 s) p (tailquote q 1) result
      else extract_switch (extract_single (extract_loop f)) (extract_loop f) c s p (tailquote q 1)
          result

  unfoldable pub extractsinglematch : Extractor
  unfolding extract_single extract_loop extract_switch extract_class extract_star after_star
      first_match match rangematch haswild
  extractsinglematch s p q result = extract_single (extract_loop (length p + 1)) s p q result

  -- What the inner loop of `extractmatches` does with the extracts for one pattern: it stops if there
  -- are any, and puts them in the order of the text.
  pub or_next : Extracted → Extracted → Extracted
  or_next assert_failed next = assert_failed
  or_next out_of_fuel next = out_of_fuel
  or_next (found []) next = next
  or_next (found (w ∷ ws)) next = found (reverse (w ∷ ws))

  pub extract_patterns : Str → List Pattern → Extracted
  extract_patterns s [] = found []
  extract_patterns s ((p, q) ∷ ps) = or_next (extractsinglematch s p q []) (extract_patterns s ps)

  -- The result grows at its end, through `prevp`.
  pub append_extracted : Extracted → Extracted → Extracted
  append_extracted assert_failed later = assert_failed
  append_extracted out_of_fuel later = out_of_fuel
  append_extracted (found ws) assert_failed = assert_failed
  append_extracted (found ws) out_of_fuel = out_of_fuel
  append_extracted (found ws) (found vs) = found (ws ++ vs)

  unfoldable pub extractmatches : List Str → List Pattern → Extracted
  unfolding or_next extract_patterns append_extracted extractsinglematch
  extractmatches [] ps = found []
  extractmatches (s ∷ ss) ps = append_extracted (extract_patterns s ps) (extractmatches ss ps)
