-- ===== src/Match/Words.antt =====
-- src/match.c: `listmatch`, a list of words against a list of patterns. The word of a term is the
-- string that `getstr` gives; a pattern stands beside its quoting, since the code walks the two
-- lists together.
use desh.Common.{
  ◌≡◌, ◌≢◌, ◌↔◌, ◌⊎◌, inl, inr, ◌&&◌, refl, Bool, true, false, List, [], ◌∷◌, ◌==◌, if◌then◌else◌,
  Str, streq_iff, Bool-cases,
}
use desh.Match.{Memory, Quote, quoted, unquoted, flags, is_raw, tailquote, match}
use desh.Match.Items.{Matches, done, skip, many_nil, items_from, items}
use desh.Match.Reflects.{match-Matches, must_consume, item_at-star, item_at-ne-many, Reflects}

abbrev pub Pattern : Type 0
Pattern = Str × Quote

-- The loop over `pw`: only unquoted stars.
pub only_stars : Str → Quote → Bool
only_stars [] q = true
only_stars (c ∷ p) q = if (c == b'*') && is_raw q 0 then only_stars p (tailquote q 1) else false

-- `*pw != '\0' && qw != QUOTED`, and the loop.
pub matches_null : Pattern → Bool
matches_null ([], q) = false
matches_null (p, quoted) = false
matches_null (p, q) = only_stars p q

-- One or more stars match null.
pub null_loop : List Pattern → Bool
null_loop [] = false
null_loop (p ∷ ps) = if matches_null p then true else null_loop ps

module _ ⦃mem : Memory⦄ where
  pub subject_loop : List Str → Pattern → Bool
  subject_loop [] p = false
  subject_loop (s ∷ ss) (p, q) = if match s p q then true else subject_loop ss (p, q)

  pub pattern_loop : List Str → List Pattern → Bool
  pattern_loop ss [] = false
  pattern_loop ss (p ∷ ps) = if subject_loop ss p then true else pattern_loop ss ps

  unfoldable pub listmatch : List Str → List Pattern → Bool
  unfolding null_loop matches_null only_stars pattern_loop subject_loop match
  listmatch [] [] = true
  listmatch [] ps = null_loop ps
  listmatch ss ps = pattern_loop ss ps

  -- A word matches a pattern: as itself if all of that is quoted, by its items if not.
  abbrev pub WordMatches : Pattern → Str → Type 0
  WordMatches (p, quoted) s = s ≡ p
  WordMatches (p, q) s = Matches (items p q) s

  -- Nothing matches a pattern that is not empty, is not wholly quoted, and lets its items match the
  -- empty text.
  abbrev pub NullMatches : Pattern → Type 0
  NullMatches (p, q) = (p ≢ []) × (q ≢ quoted) × Matches (items p q) []

  abbrev pub Any {ℓ} : {A : Type ℓ} → (A → Type 0) → List A → Type 0
  Any P [] = ⊥
  Any P (x ∷ xs) = P x ⊎ Any P xs

  -- What the comment above `listmatch` promises.
  abbrev pub ListMatches : List Str → List Pattern → Type 0
  ListMatches [] [] = Unit
  ListMatches [] ps = Any NullMatches ps
  ListMatches ss ps = Any (λ p. Any (WordMatches p) ss) ps

  or-Reflects :
      (a b : Bool) {S T : Type 0}
      → Reflects a S
      → Reflects b T
      → Reflects (if a then true else b) (S ⊎ T)
  or-Reflects true b f g = (λ _. inl (f.0 refl), λ _. refl)
  or-Reflects false b f g = (λ h. inr (g.0 h), λ d. elim d [ inl s ↦ cc (f.1 s) | inr t ↦ g.1 t ])

  only_stars-Reflects :
      (p : Str) (q : Quote) → Reflects (only_stars p q) (Matches (items_from 0 p q) [])
  unfolding only_stars items_from
  only_stars-Reflects [] q = (λ _. done, λ _. refl)
  only_stars-Reflects (c ∷ p) q = elim (Bool-cases ((c == b'*') && is_raw q 0)) [
    | inl e ↦
        let rest = only_stars-Reflects p (tailquote q 1) in
        rw (e, item_at-star c _ p (tailquote q 1) e)
          (λ h. skip (rest.0 h), λ d. rest.1 (many_nil d))
    | inr e ↦ rw e (λ h. cc, λ d. absurd (must_consume (item_at-ne-many c _ p (tailquote q 1) e) d))
  ]

  matches_null-Reflects : (p : Pattern) → Reflects (matches_null p) (NullMatches p)
  unfolding matches_null items
  matches_null-Reflects ([], q) = (λ h. cc, λ d. absurd (d.0 refl))
  matches_null-Reflects (c ∷ p, quoted) = (λ h. cc, λ d. absurd (d.1 refl))
  matches_null-Reflects (c ∷ p, q) =
      let r = only_stars-Reflects (c ∷ p) q in (λ h. (λ e. cc, λ e. cc, r.0 h), λ d. r.1 d.2)

  null_loop-Reflects : (ps : List Pattern) → Reflects (null_loop ps) (Any NullMatches ps)
  unfolding null_loop
  null_loop-Reflects [] = (λ h. cc, λ d. absurd d)
  null_loop-Reflects (p ∷ ps) =
      or-Reflects (matches_null p) _ (matches_null-Reflects p) (null_loop-Reflects ps)

  match-Reflects : (s : Str) (p : Pattern) → Reflects (match s p.0 p.1) (WordMatches p s)
  match-Reflects s (p, quoted) = unfold match in streq_iff s p
  match-Reflects s (p, unquoted) = match-Matches s p unquoted (λ e. cc)
  match-Reflects s (p, flags f) = match-Matches s p (flags f) (λ e. cc)

  subject_loop-Reflects :
      (ss : List Str) (p : Pattern) → Reflects (subject_loop ss p) (Any (WordMatches p) ss)
  unfolding subject_loop
  subject_loop-Reflects [] p = (λ h. cc, λ d. absurd d)
  subject_loop-Reflects (s ∷ ss) p =
      or-Reflects (match s p.0 p.1) _ (match-Reflects s p) (subject_loop-Reflects ss p)

  pattern_loop-Reflects :
      (ss : List Str) (ps : List Pattern)
      → Reflects (pattern_loop ss ps) (Any (λ p. Any (WordMatches p) ss) ps)
  unfolding pattern_loop
  pattern_loop-Reflects ss [] = (λ h. cc, λ d. absurd d)
  pattern_loop-Reflects ss (p ∷ ps) =
      or-Reflects (subject_loop ss p) _ (subject_loop-Reflects ss p) (pattern_loop-Reflects ss ps)

  -- `listmatch` returns true exactly if some word matches some pattern, where no words at all match no patterns at all and a pattern of unquoted stars, and nothing else.
  pub listmatch-ListMatches :
      (ss : List Str) (ps : List Pattern) → (listmatch ss ps ≡ true) ↔ ListMatches ss ps
  unfolding listmatch
  listmatch-ListMatches [] [] = (λ _. tt, λ _. refl)
  listmatch-ListMatches [] (p ∷ ps) = null_loop-Reflects (p ∷ ps)
  listmatch-ListMatches (s ∷ ss) ps = pattern_loop-Reflects (s ∷ ss) ps
