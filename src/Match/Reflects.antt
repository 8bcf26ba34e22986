-- ===== src/Match/Reflects.antt =====
-- `match` decides `Matches` on the items of its pattern.
use desh.Common.{
  ℕ, zero, suc, ◌+◌, ◌≤◌, ◌<◌, ◌≡◌, ◌↔◌, ◌⊎◌, ◌&&◌, refl, Bool, true, false, Option, none, some,
  List, [], ◌∷◌, ◌==◌, if◌then◌else◌, drop, length, length-drop, Str, inl, inr, arith, Bool-cases,
  ◌≢◌, if_push, sym, ◌∙◌,
}
use desh.Match.{
  Memory, Quote, quoted, is_raw, tailquote, range_fail, range_end, Matcher, match_char, match_any,
  collapse, any_tail, star_rest, after_range, match_class, match_switch, match_loop, match,
}
use desh.Match.Class.{Class, in_class, read_class, class_result, rangematch-read_class}
use desh.Match.Items.{
  Item, many, any, char, set, accepts, Matches, done, step, skip, more, bracket_item, item_at,
  items_from, items, items_from-drop, step_inv, many_nil, many_cons, many_many, many_all,
}

abbrev pub Reflects : Bool → Type 0 → Type 0
Reflects b T = (b ≡ true) ↔ T

pub must_consume : {i : Item} {is : List Item} → i ≢ many → ¬ Matches (i ∷ is) []
must_consume n (skip d) = n refl

step-Reflects :
    (i : Item) (is : List Item) (x : ℕ) (s : Str) (r : Bool)
    → i ≢ many
    → Reflects r (Matches is s)
    → Reflects (if accepts i x then r else false) (Matches (i ∷ is) (x ∷ s))
step-Reflects i is x s r n ok = elim (Bool-cases (accepts i x)) [
  | inl e ↦ rw e (λ h. step e (ok.0 h), λ d. ok.1 (step_inv n d).1)
  | inr e ↦ rw e (λ h. cc, λ d. absurd_of (step_inv n d).0 e)
]
  where
    absurd_of : accepts i x ≡ true → accepts i x ≡ false → false ≡ true
    absurd_of p q = sym q ∙ p

end-Reflects : (i : Item) (is : List Item) → i ≢ many → Reflects false (Matches (i ∷ is) [])
end-Reflects i is n = (λ h. cc, λ d. absurd (must_consume n d))

-- The text behind a star, if what follows the star begins with another item.
any_tail-Reflects :
    (found : Str → Bool) (i : Item) (is : List Item) (s : Str)
    → i ≢ many
    → ((t : Str) → Reflects (found t) (Matches (i ∷ is) t))
    → Reflects (any_tail found s) (Matches (many ∷ i ∷ is) s)
unfolding any_tail
any_tail-Reflects found i is [] n ok = (λ h. cc, λ d. absurd (must_consume n (many_nil d)))
any_tail-Reflects found i is (x ∷ s) n ok =
    let rest = any_tail-Reflects found i is s n ok in
    elim (Bool-cases (found (x ∷ s))) [
      | inl e ↦ rw e (λ _. skip ((ok (x ∷ s)).0 e), λ _. refl)
      | inr e ↦ rw e (λ h. more (rest.0 h), λ d. later rest e (many_cons d))
    ]
  where
    later :
        Reflects (any_tail found s) (Matches (many ∷ i ∷ is) s)
        → found (x ∷ s) ≡ false
        → Matches (i ∷ is) (x ∷ s) ⊎ Matches (many ∷ i ∷ is) s
        → any_tail found s ≡ true
    later rest e (inl d) = cc ((ok (x ∷ s)).1 d)
    later rest e (inr d) = rest.1 d

module _ ⦃mem : Memory⦄ where
  -- What `match` is assumed to do with every pattern that is no longer than `n`.
  abbrev Correct : ℕ → Matcher → Type 0
  Correct n rest =
      (s p : Str) (q : Quote) → length p ≤ n → Reflects (rest s p q) (Matches (items_from 0 p q) s)

  char-Reflects :
      (rest : Matcher) (c : ℕ) (s p : Str) (q : Quote)
      → Correct (length p) rest
      → Reflects (match_char rest c s p q) (Matches (char c ∷ items_from 0 p q) s)
  unfolding match_char
  char-Reflects rest c [] p q ok = end-Reflects (char c) _ (λ e. cc)
  char-Reflects rest c (x ∷ s) p q ok =
      step-Reflects (char c) _ x s _ (λ e. cc) (ok s p q (omega arith))

  any-Reflects :
      (rest : Matcher) (s p : Str) (q : Quote)
      → Correct (length p) rest
      → Reflects (match_any rest s p q) (Matches (any ∷ items_from 0 p q) s)
  unfolding match_any
  any-Reflects rest [] p q ok = end-Reflects any _ (λ e. cc)
  any-Reflects rest (x ∷ s) p q ok = step-Reflects any _ x s _ (λ e. cc) (ok s p q (omega arith))

  -- An item with the items that follow what belongs to it.
  abbrev pub items_after : Item × ℕ → Str → Quote → List Item
  items_after (i, n) p q = i ∷ items_from n p q

  pub item_at-ne-many :
      (c : ℕ) (raw : Bool) (p : Str) (q : Quote)
      → ((c == b'*') && raw) ≡ false
      → (item_at c raw p q).0 ≢ many
  unfolding item_at
  item_at-ne-many c raw p q h = ground arith

  pub item_at-star :
      (c : ℕ) (raw : Bool) (p : Str) (q : Quote)
      → ((c == b'*') && raw) ≡ true
      → item_at c raw p q ≡ (many, 0)
  unfolding item_at
  item_at-star c raw p q h = ground arith

  star-Reflects :
      (rest : Matcher) (s p : Str) (q : Quote)
      → Correct (length p) rest
      → Reflects (star_rest rest s (collapse p q)) (Matches (many ∷ items_from 0 p q) s)
  unfolding star_rest collapse items_from
  star-Reflects rest s [] q ok = (λ _. many_all s, λ _. refl)
  star-Reflects rest s (x ∷ p) q ok = elim (Bool-cases ((x == b'*') && is_raw q 0)) [
    | inl e ↦
        let rest' =
          star-Reflects rest s p (tailquote q 1) (λ t p' q' h. ok t p' q' (omega arith)) in
        rw (e, item_at-star x _ p (tailquote q 1) e)
          (λ h. skip (rest'.0 h), λ d. rest'.1 (many_many d))
    | inr e ↦ rw e (
        any_tail-Reflects (λ t. rest t (x ∷ p) q) _ _ s (item_at-ne-many x _ p (tailquote q 1) e)
          (λ t. ok t (x ∷ p) q (omega arith)))
  ]

  ==_comm : (a b : ℕ) → a == b ≡ b == a
  ==_comm a b = ground arith

  -- By what `read_class` finds.
  after_range-Reflects :
      (rest : Matcher) (x : ℕ) (s p : Str) (q : Quote) (k : Option Class)
      → Correct (length p) rest
      → Reflects
          (after_range rest x s p q (class_result x k))
          (Matches (items_after (bracket_item k) p q) (x ∷ s))
  unfolding after_range
  after_range-Reflects rest x s p q none ok =
      rw (==_comm x b'[') (step-Reflects (char b'[') _ x s _ (λ e. cc) (ok s p q (omega arith)))
  after_range-Reflects rest x s p q (some k) ok =
      rw
        (← if_push (after_range rest x s p q) (in_class k x) (range_end k.size) range_fail refl
          refl)
        (step-Reflects (set k) _ x s _ (λ e. cc)
          (rw items_from-drop
            (ok s (drop k.size p) (tailquote q k.size) (omega (arith, length-drop {0} k.size p)))))

  class-Reflects :
      (rest : Matcher) (s p : Str) (q : Quote)
      → Correct (length p) rest
      → Reflects
          (match_class rest s p q)
          (Matches (items_after (bracket_item (read_class p q)) p q) s)
  unfolding match_class
  class-Reflects rest [] p q ok = bracket_end (read_class p q)
    where
      bracket_end :
          (k : Option Class) → Reflects false (Matches (items_after (bracket_item k) p q) [])
      bracket_end none = end-Reflects (char b'[') _ (λ e. cc)
      bracket_end (some k) = end-Reflects (set k) _ (λ e. cc)
  class-Reflects rest (x ∷ s) p q ok =
      rw rangematch-read_class (after_range-Reflects rest x s p q (read_class p q) ok)

  switch-Reflects :
      (rest : Matcher) (c : ℕ) (s p : Str) (q : Quote)
      → Correct (length p) rest
      → Reflects (match_switch rest c s p q) (Matches (items_after (item_at c true p q) p q) s)
  unfolding match_switch item_at
  switch-Reflects rest c s p q ok = elim (Bool-cases (c == b'?')) [
    | inl e ↦ rw e (any-Reflects rest s p q ok)
    | inr e ↦ rw e (elim (Bool-cases (c == b'*')) [
      | inl e' ↦ rw e' (star-Reflects rest s p q ok)
      | inr e' ↦ rw e' (elim (Bool-cases (c == b'[')) [
        | inl e'' ↦ rw e'' (class-Reflects rest s p q ok)
        | inr e'' ↦ rw e'' (char-Reflects rest c s p q ok)
      ])
    ])
  ]

  loop-Reflects : (f n : ℕ) → n < f → Correct n (match_loop f)
  unfolding match_loop items_from item_at
  loop-Reflects zero n lt s p q h = absurd (omega arith)
  loop-Reflects (suc f) n lt [] [] q h = (λ _. done, λ _. refl)
  loop-Reflects (suc f) n lt (x ∷ s) [] q h = (λ e. cc, λ d. elim d [ ])
  loop-Reflects (suc f) n lt s (c ∷ p) q h =
      let ok = loop-Reflects f (length p) (omega arith) in
      elim (Bool-cases (is_raw q 0)) [
        | inl e ↦ rw e (switch-Reflects (match_loop f) c s p (tailquote q 1) ok)
        | inr e ↦ rw e (char-Reflects (match_loop f) c s p (tailquote q 1) ok)
      ]

  -- With a quote that is not QUOTED, `match` returns true exactly if the text matches the items of the pattern.
  pub match-Matches :
      (s p : Str) (q : Quote) → q ≢ quoted → (match s p q ≡ true) ↔ Matches (items p q) s
  unfolding match items
  match-Matches s p quoted n = absurd (n refl)
  match-Matches s p q n = loop-Reflects (length p + 1) (length p) (omega arith) s p q (omega arith)
