-- ===== src/Match/Beyond.antt =====
-- src/match.c: `rangematch` on UNQUOTED, which it walks past.
use desh.Common.{ℕ, ◌≡◌, refl, Bool, true, false, not, ◌&&◌, [], ◌∷◌, ◌==◌, arith}
use desh.Match.{Memory, unquoted, range_error, range_loop, range_first, rangematch}

-- No bracket, dash or tilde.
abbrev pub is_plain : ℕ → Bool
is_plain c = not (c == b']') && (not (c == b'-') && not (c == b'~'))

parts :
    (c : ℕ)
    → is_plain c ≡ true
    → ((c == b']') ≡ false) × ((c == b'-') ≡ false) × ((c == b'~') ≡ false)
parts c h = ground arith

module _ ⦃mem : Memory⦄ where
  -- If QUOTED stands right behind UNQUOTED, the closing bracket of an unquoted class of four plain bytes at the end of a pattern is taken as quoted, and `rangematch` returns RANGE_ERROR, whatever the byte is.
  pub rangematch_four_bytes :
      (a b c d x : ℕ)
      → is_plain a ≡ true
      → is_plain b ≡ true
      → is_plain c ≡ true
      → is_plain d ≡ true
      → mem.quoted_at 4 ≡ true
      → rangematch (a ∷ b ∷ c ∷ d ∷ b']' ∷ []) unquoted x ≡ range_error
  unfolding rangematch range_first range_loop
  rangematch_four_bytes a b c d x pa pb pc pd q =
      let (ra, da, ta) = parts a pa in
      let (rb, db, tb) = parts b pb in
      let (rc, dc, tc) = parts c pc in
      let (rd, dd, td) = parts d pd in rw (ta, ra, rb, rc, rd, db, dc, dd, q) refl
