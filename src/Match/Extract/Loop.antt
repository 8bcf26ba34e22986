-- ===== src/Match/Extract/Loop.antt =====
-- The whole run of `extractsinglematch`, and where it fails its assertion.
use desh.Common.{
  ℕ, zero, suc, ◌+◌, ◌<◌, ◌≡◌, ◌≢◌, refl, Bool, true, false, List, [], ◌∷◌, ◌++◌, if◌then◌else◌,
  length, length-append, Str, reverse, arith,
}
use desh.Match.{Memory, Quote, quoted, unquoted, flags, is_raw, tailquote, match}
use desh.Match.Items.{Matches, done, step, skip, item_at, items_from, items}
use desh.Match.Reflects.{match-Matches}
use desh.Match.Wild.{item_at_plain, haswild_raw, is_wild, haswild}
use desh.Match.Extract.{
  found, assert_failed, first_match, after_star, extract_star, extract_switch, extract_single,
  extract_loop, extractsinglematch,
}
use desh.Match.Extract.Fills.{Fills, end, Separated, WellQuoted, tailquote-ne-quoted, Correct}
use desh.Match.Extract.Rounds.{single-Fits, round-Fits}

module _ ⦃mem : Memory⦄ where
  loop-Fits : (f n : ℕ) → n < f → Correct n (extract_loop f)
  unfolding extract_loop items_from
  loop-Fits zero n lt s p q r h nq well apart d = absurd (omega arith)
  loop-Fits (suc f) n lt [] [] q r h nq well apart d = ([], refl, end)
  loop-Fits (suc f) n lt (x ∷ s) [] q r h nq well apart d = elim d [ ]
  loop-Fits (suc f) n lt s (c ∷ p) q r h nq well apart d = rw well.0 (
      round-Fits (extract_loop f) c p (tailquote q 1) r (loop-Fits f (length p) (omega arith))
        (tailquote-ne-quoted q 1 nq) well.1 (is_raw q 0) s apart d)

  haswild-ne-quoted : (p : Str) (q : Quote) → haswild p q ≡ true → q ≢ quoted
  unfolding haswild
  haswild-ne-quoted p quoted h = λ e. cc
  haswild-ne-quoted p unquoted h = λ e. cc
  haswild-ne-quoted p (flags f) h = λ e. cc

  -- When a pattern with unquoted wildcards, a flag for each byte and no two stars side by side matches the text, `extractsinglematch` fails no assertion and returns, backwards, one word for each wildcard, and these words with the plain bytes of the pattern make up the text.
  pub extractsinglematch-Fills :
      (s p : Str) (q : Quote)
      → WellQuoted p q
      → Separated (items p q)
      → haswild p q ≡ true
      → match s p q ≡ true
      → (ws : List Str) × (extractsinglematch s p q [] ≡ found (reverse ws))
        × Fills (items p q) ws s
  unfolding extractsinglematch items
  extractsinglematch-Fills s p q well apart h m =
      let n = haswild-ne-quoted p q h in
      single-Fits (extract_loop (length p + 1)) s p q [] (loop-Fits _ (length p) (omega arith)) n
        well h m apart ((match-Matches s p q n).0 m)

  -- A text of plain bytes, with two stars behind them in the pattern: the first star finds the text
  -- at its end.
  loop-two_stars :
      (p : Str) (f : ℕ) (r : List Str)
      → length p < f
      → haswild_raw p ≡ false
      → extract_loop f p (p ++ b'*' ∷ b'*' ∷ []) unquoted r ≡ assert_failed
  unfolding extract_loop extract_switch extract_star after_star first_match haswild_raw
  loop-two_stars [] zero r lt h = elim lt [ ]
  loop-two_stars [] (suc f) r lt h = refl
  loop-two_stars (c ∷ p) zero r lt h = elim lt [ ]
  loop-two_stars (c ∷ p) (suc f) r lt h = ground (arith, loop-two_stars p f r)

  not_wild :
      (c : ℕ) (b : Bool)
      → (if is_wild c then true else b) ≡ false
      → (is_wild c ≡ false) × (b ≡ false)
  not_wild c b h = ground arith

  Matches-two_stars :
      (p : Str) → haswild_raw p ≡ false → Matches (items_from 0 (p ++ b'*' ∷ b'*' ∷ []) unquoted) p
  unfolding items_from haswild_raw
  Matches-two_stars [] h = unfold item_at in skip (skip done)
  Matches-two_stars (c ∷ p) h =
      let plain = not_wild c _ h in
      rw (item_at_plain c true (p ++ b'*' ∷ b'*' ∷ []) unquoted (ground arith))
        (step (ground arith) (Matches-two_stars p plain.1))

  haswild-two_stars : (p : Str) → haswild_raw (p ++ b'*' ∷ b'*' ∷ []) ≡ true
  unfolding haswild_raw
  haswild-two_stars [] = refl
  haswild-two_stars (c ∷ p) = ground (arith, haswild-two_stars p)

  -- A word of plain bytes matches the pattern that ends in two more stars, but `extractsinglematch` fails its assertion on them: the first star is followed by a star and finds the text at its end.
  pub extractsinglematch_two_stars :
      (p : Str)
      → haswild p unquoted ≡ false
      → (match p (p ++ b'*' ∷ b'*' ∷ []) unquoted ≡ true)
        × (extractsinglematch p (p ++ b'*' ∷ b'*' ∷ []) unquoted [] ≡ assert_failed)
  unfolding extractsinglematch extract_single haswild
  extractsinglematch_two_stars p h =
      let m : match p (p ++ b'*' ∷ b'*' ∷ []) unquoted ≡ true =
        unfold items in (match-Matches p _ unquoted (λ e. cc)).1 (Matches-two_stars p h) in
      (
        m,
        rw (haswild-two_stars p, m)
            (loop-two_stars p _ [] (omega (arith, length-append {0} p (b'*' ∷ b'*' ∷ []))) h),
      )
