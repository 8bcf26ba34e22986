-- ===== src/Match/Wild.antt =====
-- src/glob.cpp: `haswild` and `hastilde`, and what they promise about `match`.
use desh.Common.{
  ℕ, ◌≡◌, ◌≢◌, ◌↔◌, ◌&&◌, ◌||◌, ◌∙◌, refl, ap, Bool, true, false, [], ◌∷◌, ◌==◌, if◌then◌else◌,
  drop, Str, char_at, map, arith, streq_iff, sym,
}
use desh.Match.{Memory, Quote, quoted, unquoted, flags, is_raw, tailquote, match}
use desh.Match.Items.{char, Matches, done, step, step_inv, item_at, items_from, items}
use desh.Match.Reflects.{match-Matches, must_consume}

-- `c == '*' || c == '?' || c == '['`
abbrev pub is_wild : ℕ → Bool
is_wild c = (c == b'*') || (c == b'?') || (c == b'[')

-- The loop under `q == UNQUOTED`.
unfoldable pub haswild_raw : Str → Bool
haswild_raw [] = false
haswild_raw (c ∷ s) = if is_wild c then true else haswild_raw s

-- The loop over the word and its flags.
pub haswild_flags : Str → Str → Bool
haswild_flags [] f = false
haswild_flags (c ∷ s) f =
    if is_wild c && (char_at f 0 == b'r') then true else haswild_flags s (drop 1 f)

unfoldable pub haswild : Str → Quote → Bool
unfolding haswild_raw haswild_flags
haswild s quoted = false
haswild s unquoted = haswild_raw s
haswild s (flags f) = haswild_flags s f

unfoldable pub hastilde : Str → Quote → Bool
hastilde s q = (char_at s 0 == b'~') && is_raw q 0

-- One byte at a time, for every form of quoting.
pub haswild-cons :
    (c : ℕ) (s : Str) (q : Quote)
    → haswild (c ∷ s) q ≡ ((is_wild c && is_raw q 0) || haswild s (tailquote q 1))
unfolding haswild
haswild-cons c s quoted = ground arith
haswild-cons c s unquoted = ground arith
haswild-cons c s (flags f) = ground arith

pub haswild-nil : (q : Quote) → haswild [] q ≡ false
unfolding haswild
haswild-nil quoted = refl
haswild-nil unquoted = refl
haswild-nil (flags f) = refl

module _ ⦃mem : Memory⦄ where
  pub item_at_plain :
      (c : ℕ) (raw : Bool) (p : Str) (q : Quote)
      → (is_wild c && raw) ≡ false
      → item_at c raw p q ≡ (char c, 0)
  unfolding item_at
  item_at_plain c raw p q h = ground arith

  or_false : (a b : Bool) → (a || b) ≡ false → (a ≡ false) × (b ≡ false)
  or_false true b h = cc
  or_false false b h = (refl, h)

  -- A word with no wildcard is read as its own bytes.
  pub items_from-no_wild :
      (p : Str) (q : Quote) → haswild p q ≡ false → items_from 0 p q ≡ map char p
  unfolding items_from
  items_from-no_wild [] q h = refl
  items_from-no_wild (c ∷ p) q h =
      let (plain, rest) = or_false _ _ (sym (haswild-cons c p q) ∙ h) in
      rw (item_at_plain c (is_raw q 0) p (tailquote q 1) plain)
        (ap (λ is. char c ∷ is) (items_from-no_wild p (tailquote q 1) rest))

  pub Matches-char_iff : (p s : Str) → Matches (map char p) s ↔ (s ≡ p)
  Matches-char_iff [] [] = (λ d. refl, λ e. done)
  Matches-char_iff [] (x ∷ s) = (λ d. elim d [ ], λ e. absurd (ground arith))
  Matches-char_iff (c ∷ p) [] = (λ d. absurd (must_consume (λ e. cc) d), λ e. absurd (ground arith))
  Matches-char_iff (c ∷ p) (x ∷ s) =
      let rest = Matches-char_iff p s in
      (
        λ d. let (h, r) = step_inv (λ e. cc) d in ground (arith, h, rest.0 r),
        λ e. step (ground arith) (rest.1 (ground arith)),
      )

  no_wild_iff :
      (s p : Str) (q : Quote) → q ≢ quoted → haswild p q ≡ false → (match s p q ≡ true) ↔ (s ≡ p)
  unfolding items
  no_wild_iff s p q n h =
      let read = match-Matches s p q n in
      let same = Matches-char_iff p s in
      let e : items p q ≡ map char p = items_from-no_wild p q h in
      (λ t. same.0 (rw e at (read.0 t)), λ t. read.1 (rw e (same.1 t)))

  -- A word with no unquoted wildcard matches itself and nothing else, whatever its quoting is.
  pub match_no_wild : (s p : Str) (q : Quote) → haswild p q ≡ false → (match s p q ≡ true) ↔ (s ≡ p)
  unfolding match
  match_no_wild s p quoted h = streq_iff s p
  match_no_wild s p unquoted h = no_wild_iff s p unquoted (λ e. cc) h
  match_no_wild s p (flags f) h = no_wild_iff s p (flags f) (λ e. cc) h
