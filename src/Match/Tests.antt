-- ===== src/Match/Tests.antt =====
-- Runs of the matcher on words from a shell session, and the theorems at such words.
use desh.Common.{◌==◌, ◌≡◌, ◌↔◌, refl, true, false, List, [], ◌∷◌, reverse, Str, codes}
use desh.Match.Beyond.{rangematch_four_bytes}
use desh.Match.{Memory, range_error, quoted, unquoted, flags, rangematch, match}
use desh.Match.Class.{read_class, class_result, rangematch-read_class}
use desh.Match.Items.{Matches, items}
use desh.Match.Reflects.{match-Matches}
use desh.Match.Wild.{haswild, match_no_wild}
use desh.Match.Words.{ListMatches, listmatch-ListMatches, listmatch}
use desh.Match.Extract.{found, assert_failed, extractsinglematch, extractmatches}
use desh.Match.Extract.Fills.{Fills}
use desh.Match.Extract.Loop.{extractsinglematch-Fills, extractsinglematch_two_stars}

-- Zeros behind UNQUOTED and QUOTED, which stand apart.
instance abbrev apart : Memory
apart = record {
  behind_raw = λ k. 0;
  behind_quoted = λ k. 0;
  quoted_at = λ k. false;
  unquoted_at = λ k. false;
}

-- QUOTED right behind the four bytes of UNQUOTED.
abbrev side_by_side : Memory
side_by_side = record apart { quoted_at = λ k. k == 4 }

rangematch_four_bytes_example :
    rangematch ⦃mem = side_by_side⦄ (codes "abcd]") unquoted b'a' ≡ range_error
rangematch_four_bytes_example =
    rangematch_four_bytes ⦃mem = side_by_side⦄ b'a' b'b' b'c' b'd' b'a' refl refl refl refl refl

match_star : match (codes "main.c") (codes "*.[ch]") unquoted ≡ true
unfolding match
match_star = refl

match_quoted_star : match (codes "main.c") (codes "*.c") (flags (codes "qrr")) ≡ false
unfolding match
match_quoted_star = refl

match_negated : match (codes "b") (codes "[~a-c]") unquoted ≡ false
unfolding match
match_negated = refl

match_open_class : match (codes "a[b") (codes "a[b") unquoted ≡ true
unfolding match
match_open_class = refl

listmatch_null : listmatch [] ((codes "**", unquoted) ∷ []) ≡ true
unfolding listmatch
listmatch_null = refl

extract_parts :
    extractmatches (codes "foo.c" ∷ codes "x" ∷ []) ((codes "*.[ch]", unquoted) ∷ [])
    ≡ found (codes "foo" ∷ codes "c" ∷ [])
unfolding extractmatches
extract_parts = refl

match-Matches_example :
    (match (codes "main.c") (codes "*.[ch]") unquoted ≡ true)
    ↔ Matches (items (codes "*.[ch]") unquoted) (codes "main.c")
match-Matches_example = match-Matches (codes "main.c") (codes "*.[ch]") unquoted unquoted-ne
  where
    unquoted-ne : unquoted ≡ quoted → ⊥
    unquoted-ne e = cc

match_no_wild_example :
    (match (codes "*") (codes "*") (flags (codes "q")) ≡ true) ↔ (codes "*" ≡ codes "*")
unfolding haswild
match_no_wild_example = match_no_wild (codes "*") (codes "*") (flags (codes "q")) refl

extractsinglematch-Fills_example :
    (ws : List Str) × (extractsinglematch (codes "foo.c") (codes "*.[ch]") unquoted []
      ≡ found (reverse ws))
    × Fills (items (codes "*.[ch]") unquoted) ws (codes "foo.c")
unfolding haswild match items
extractsinglematch-Fills_example =
    extractsinglematch-Fills (codes "foo.c") (codes "*.[ch]") unquoted
      (refl, (refl, (refl, (refl, (refl, (refl, tt)))))) tt refl refl

extractsinglematch_two_stars_example :
    (match (codes "a") (codes "a**") unquoted ≡ true)
    × (extractsinglematch (codes "a") (codes "a**") unquoted [] ≡ assert_failed)
unfolding haswild
extractsinglematch_two_stars_example = extractsinglematch_two_stars (codes "a") refl

rangematch-read_class_example :
    rangematch (codes "]a-f]x") unquoted b'c'
    ≡ class_result b'c' (read_class (codes "]a-f]x") unquoted)
rangematch-read_class_example = rangematch-read_class (codes "]a-f]x") unquoted b'c'

listmatch-ListMatches_example :
    (listmatch (codes "a" ∷ []) ((codes "b*", unquoted) ∷ (codes "?", unquoted) ∷ []) ≡ true)
    ↔ ListMatches (codes "a" ∷ []) ((codes "b*", unquoted) ∷ (codes "?", unquoted) ∷ [])
listmatch-ListMatches_example =
    listmatch-ListMatches (codes "a" ∷ []) ((codes "b*", unquoted) ∷ (codes "?", unquoted) ∷ [])
