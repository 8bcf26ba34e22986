-- ===== src/Match/Extract/Rounds.antt =====
-- One round of the loop of `extractsinglematch`, by the byte of the pattern.
use desh.Common.{
  ℕ, ◌≡◌, ◌≢◌, refl, subst, Bool, true, false, not, Option, none, some, List, [], ◌∷◌, append-nil,
  ◌==◌, if◌then◌else◌, drop, length, length-drop, Str, Bool-cases, arith, inl, inr, ==_iff,
}
use desh.Match.{Memory, Quote, quoted, tailquote, match}
use desh.Match.Class.{Class, read_class, class_result, rangematch-read_class}
use desh.Match.Items.{
  Item, many, any, char, set, Matches, bracket_item, item_at, items_from, items, items_from-drop,
  step_inv,
}
use desh.Match.Reflects.{items_after, item_at-star, item_at-ne-many, match-Matches, must_consume}
use desh.Match.Wild.{haswild, items_from-no_wild, match_no_wild}
use desh.Match.Extract.{
  found, Extractor, after_star, extract_star, extract_class, extract_switch, extract_single,
}
use desh.Match.Extract.Fills.{
  Fills, end, plain, one, member, run, Separated, WellQuoted, Fits, WellQuoted-drop,
  tailquote-ne-quoted, Separated-tail, Separated-many, first_match-some, Fits-cons, Correct,
  Fills-char,
}

module _ ⦃mem : Memory⦄ where
  module _ (rest : Extractor) (s p : Str) (q : Quote) (r : List Str) (ok : Correct (length p) rest)
      (n : q ≢ quoted) (well : WellQuoted p q) where
    pub single-Fits :
        haswild p q ≡ true
        → match s p q ≡ true
        → Separated (items_from 0 p q)
        → Matches (items_from 0 p q) s
        → Fits (extract_single rest s p q r) r (items_from 0 p q) s
    unfolding extract_single
    single-Fits h m apart d = rw (h, m) (ok s p q r (omega arith) n well apart d)

    -- A word with no wildcard is left unread, and gives no words.
    literal-Fits : haswild p q ≡ false → match s p q ≡ true → Fits (found r) r (items_from 0 p q) s
    literal-Fits h m =
        ([], refl, rw (items_from-no_wild p q h, (match_no_wild s p q h).0 m) (Fills-char p))

    after-Fits :
        match s p q ≡ true
        → Separated (items_from 0 p q)
        → Fits (if haswild p q then extract_single rest s p q r else found r) r (items_from 0 p q) s
    unfolding items
    after-Fits m apart = elim (Bool-cases (haswild p q)) [
      | inl h ↦ rw h (single-Fits h m apart ((match-Matches s p q n).0 m))
      | inr h ↦ rw h (literal-Fits h m)
    ]

  star-Fits :
      (rest : Extractor) (s p : Str) (q : Quote) (r : List Str)
      → Correct (length p) rest
      → q ≢ quoted
      → WellQuoted p q
      → Separated (many ∷ items_from 0 p q)
      → Matches (many ∷ items_from 0 p q) s
      → Fits (extract_star (extract_single rest) s p q r) r (many ∷ items_from 0 p q) s
  unfolding extract_star after_star items items_from
  star-Fits rest s [] q r ok n well apart d = (s ∷ [], refl, run (append-nil s) end)
  star-Fits rest s (c ∷ p) q r ok n well apart d =
      let (w, t, e, glued, m) =
        first_match-some (λ t. match t (c ∷ p) q) _ _ s (Separated-many _ _ apart)
          (λ t. match-Matches t (c ∷ p) q n) d in
      rw e (
        Fits-cons _ r many _ w s t (λ ws f. run glued f)
          (after-Fits rest t (c ∷ p) q (w ∷ r) ok n well m
            (Separated-tail many (items_from 0 (c ∷ p) q) apart)))

  plain_at :
      {c x : ℕ} {is : List Item} {ws : List Str} {s : Str}
      → c ≡ x
      → Fills is ws s
      → Fills (char c ∷ is) ws (x ∷ s)
  plain_at {c} {is} {ws} {s} e f = subst (λ y. Fills (char c ∷ is) ws (y ∷ s)) e (plain f)

  item_at-class :
      (c : ℕ) (p : Str) (q : Quote)
      → (c == b'[') ≡ true
      → item_at c true p q ≡ bracket_item (read_class p q)
  unfolding item_at
  item_at-class c p q h = ground arith

  item_at-any : (c : ℕ) (p : Str) (q : Quote) → (c == b'?') ≡ true → item_at c true p q ≡ (any, 0)
  unfolding item_at
  item_at-any c p q h = ground arith

  item_at-char :
      (c : ℕ) (p : Str) (q : Quote)
      → (c == b'*') ≡ false
      → (c == b'[') ≡ false
      → (c == b'?') ≡ false
      → item_at c true p q ≡ (char c, 0)
  unfolding item_at
  item_at-char c p q h k l = ground arith

  module _ (rest : Extractor) (x : ℕ) (s p : Str) (q : Quote) (r : List Str)
      (ok : Correct (length p) rest) (n : q ≢ quoted) (well : WellQuoted p q) where
    -- A byte of the pattern that stands for itself.
    char-Fits :
        (c : ℕ)
        → Separated (items_from 0 p q)
        → Matches (char c ∷ items_from 0 p q) (x ∷ s)
        → Fits (rest s p q r) r (char c ∷ items_from 0 p q) (x ∷ s)
    char-Fits c apart d =
        let (h, m) = step_inv (λ e. cc) d in
        let (ws, e, f) = ok s p q r (omega arith) n well apart m in
        (ws, e, plain_at ((==_iff c x).0 h) f)

    bracket-Fits :
        (k : Option Class)
        → Separated (items_after (bracket_item k) p q)
        → Matches (items_after (bracket_item k) p q) (x ∷ s)
        → Fits
            (extract_class rest (x ∷ s) p q r (class_result x k))
            r
            (items_after (bracket_item k) p q)
            (x ∷ s)
    unfolding extract_class
    bracket-Fits none apart d =
        let same : b'[' ≡ x = (==_iff b'[' x).0 (step_inv (λ e. cc) d).0 in
        let here : (x == b'[') ≡ true = ground arith in rw here (char-Fits b'[' apart d)
    bracket-Fits (some k) apart d =
        let (h, m) = step_inv (λ e. cc) d in
        let shift = items_from-drop k.size p q in
        rw h (
          Fits-cons _ r (set k) _ (x ∷ []) (x ∷ s) s (λ ws f. member h f)
            (rw shift (
              ok s (drop k.size p) (tailquote q k.size) ((x ∷ []) ∷ r)
                (omega (arith, length-drop {0} k.size p)) (tailquote-ne-quoted q k.size n)
                (WellQuoted-drop k.size p q well) (rw shift at apart) (rw shift at m))))

    -- The switch at a byte that is no star.
    switch-Fits :
        (c : ℕ)
        → (c == b'*') ≡ false
        → Separated (items_after (item_at c true p q) p q)
        → Matches (items_after (item_at c true p q) p q) (x ∷ s)
        → Fits
            (extract_switch (extract_single rest) rest c (x ∷ s) p q r)
            r
            (items_after (item_at c true p q) p q)
            (x ∷ s)
    unfolding extract_switch
    switch-Fits c star apart d = elim (Bool-cases (c == b'[')) [
      | inl e ↦
          let i = item_at-class c p q e in
          rw (star, e, i, rangematch-read_class p q x)
            (bracket-Fits (read_class p q) (rw i at apart) (rw i at d))
      | inr e ↦ elim (Bool-cases (c == b'?')) [
        | inl e' ↦
            let i = item_at-any c p q e' in
            rw (star, e, e', i)
              (Fits-cons _ r any _ (x ∷ []) (x ∷ s) s (λ ws f. one f)
                (ok s p q ((x ∷ []) ∷ r) (omega arith) n well (rw i at apart)
                  (step_inv (λ e. cc) (rw i at d)).1))
        | inr e' ↦
            let i = item_at-char c p q star e e' in
            rw (star, e, e', i) (char-Fits c (rw i at apart) (rw i at d))
      ]
    ]

  module _ (rest : Extractor) (c : ℕ) (p : Str) (q : Quote) (r : List Str)
      (ok : Correct (length p) rest) (n : q ≢ quoted) (well : WellQuoted p q) where
    star-switch-Fits :
        (s : Str)
        → (c == b'*') ≡ true
        → Separated (items_after (item_at c true p q) p q)
        → Matches (items_after (item_at c true p q) p q) s
        → Fits
            (extract_switch (extract_single rest) rest c s p q r)
            r
            (items_after (item_at c true p q) p q)
            s
    unfolding extract_switch
    star-switch-Fits s e apart d =
        let i = item_at-star c true p q (ground arith) in
        rw (e, i) (star-Fits rest s p q r ok n well (rw i at apart) (rw i at d))

    -- One round of the loop, at the byte `c` of the pattern.
    pub round-Fits :
        (raw : Bool) (s : Str)
        → Separated (items_after (item_at c raw p q) p q)
        → Matches (items_after (item_at c raw p q) p q) s
        → Fits
            (if not raw
              then rest (drop 1 s) p q r
              else extract_switch (extract_single rest) rest c s p q r)
            r
            (items_after (item_at c raw p q) p q)
            s
    unfolding item_at
    round-Fits false [] apart d = absurd (must_consume (λ e. cc) d)
    round-Fits false (x ∷ s) apart d = char-Fits rest x s p q r ok n well c apart d
    round-Fits true s apart d = elim (Bool-cases (c == b'*')) [
      | inl e ↦ star-switch-Fits s e apart d
      | inr e ↦ no_star s e apart d
    ]
      where
        no_star :
            (s : Str)
            → (c == b'*') ≡ false
            → Separated (items_after (item_at c true p q) p q)
            → Matches (items_after (item_at c true p q) p q) s
            → Fits
                (extract_switch (extract_single rest) rest c s p q r)
                r
                (items_after (item_at c true p q) p q)
                s
        no_star [] e apart d = absurd (must_consume (item_at-ne-many c true p q (ground arith)) d)
        no_star (x ∷ s) e apart d = switch-Fits rest x s p q r ok n well c e apart d
