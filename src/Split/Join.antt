-- ===== src/Split/Join.antt =====
-- Joining words again, as the conversion `%L` of src/conv.c prints a list.
use desh.Common.{
  ℕ, ◌≡◌, ◌≢◌, refl, ap, ◌∙◌, subst, Bool, true, false, List, [], ◌∷◌, ◌++◌, Str, Bool-cases, inl,
  inr, append-nil, append_assoc, arith,
}
use desh.Split.{Splitter, separates, fsplit}
use desh.Split.Cache.{IsCached}
use desh.Split.Fields.{prepend, fields, pieces, all_pieces}
use desh.Split.Laws.{fsplit-all_pieces}

-- `Lconv` under "%s%s": a separator after every string but the last.
unfoldable pub join : Str → List Str → Str
join sep [] = []
join sep (x ∷ []) = x
join sep (x ∷ y ∷ xs) = x ++ (sep ++ join sep (y ∷ xs))

-- A C string holds no NUL.
pub data IsText : Str → Type 0 where
  nil : IsText []
  cons : {c : ℕ} {s : Str} → c ≢ 0 → IsText s → IsText (c ∷ s)

-- A string without NUL in which `c` does not occur.
pub data IsField (c : ℕ) : Str → Type 0 where
  nil : IsField c []
  cons : {x : ℕ} {s : Str} → x ≢ 0 → c ≢ x → IsField c s → IsField c (x ∷ s)

pub data AllFields (c : ℕ) : List Str → Type 0 where
  nil : AllFields c []
  cons : {x : Str} {xs : List Str} → IsField c x → AllFields c xs → AllFields c (x ∷ xs)

fields-cons : (p : ℕ → Bool) (s : Str) → (x : Str) × ((xs : List Str) × (fields p s ≡ x ∷ xs))
unfolding fields prepend
fields-cons p [] = ([], ([], refl))
fields-cons p (c ∷ s) = elim (Bool-cases (p c)) [
  | inl e ↦ rw e ([], (fields p s, refl))
  | inr e ↦ let (x, (xs, eq)) = fields-cons p s in rw (e, eq) (c ∷ x, (xs, refl))
]

join-prepend :
    (sep b x : Str) (xs : List Str) → join sep (prepend b (x ∷ xs)) ≡ b ++ join sep (x ∷ xs)
unfolding join prepend
join-prepend sep b x [] = refl
join-prepend sep b x (y ∷ xs) = append_assoc b x (sep ++ join sep (y ∷ xs))

separates-true : (c x : ℕ) → x ≢ 0 → separates (c ∷ []) x ≡ true → c ≡ x
separates-true c x h e = ground arith

separates-false : (c x : ℕ) → x ≢ 0 → c ≢ x → separates (c ∷ []) x ≡ false
separates-false c x h n = ground arith

separates_self : (c : ℕ) → separates (c ∷ []) c ≡ true
separates_self c = ground arith

one_string : (c : ℕ) (s : Str) → all_pieces (c ∷ []) false (s ∷ []) ≡ fields (separates (c ∷ [])) s
unfolding all_pieces pieces
one_string c s = append-nil (fields (separates (c ∷ [])) s)

join-fields : (c : ℕ) (s : Str) → IsText s → join (c ∷ []) (fields (separates (c ∷ [])) s) ≡ s
unfolding fields join
join-fields c [] IsText.nil = refl
join-fields c (x ∷ s) (IsText.cons h t) =
    let p = separates (c ∷ []) in
    let (y, (ys, eq)) = fields-cons p s in
    let rest = subst (λ f. join (c ∷ []) f ≡ s) eq (join-fields c s t) in
    elim (Bool-cases (p x)) [
      | inl e ↦ rw (e, eq) (ap (λ u. c ∷ u) rest ∙ ap (λ u. u ∷ s) (separates-true c x h e))
      | inr e ↦ rw (e, eq) (join-prepend (c ∷ []) (x ∷ []) y ys ∙ ap (λ u. x ∷ u) rest)
    ]

field_alone : (c : ℕ) (x : Str) → IsField c x → fields (separates (c ∷ [])) x ≡ x ∷ []
unfolding fields prepend
field_alone c [] IsField.nil = refl
field_alone c (y ∷ x) (IsField.cons h n r) = rw (separates-false c y h n, field_alone c x r) refl

field_first :
    (c : ℕ) (x s : Str)
    → IsField c x
    → fields (separates (c ∷ [])) (x ++ c ∷ s) ≡ x ∷ fields (separates (c ∷ [])) s
unfolding fields prepend
field_first c [] s IsField.nil = rw (separates_self c) refl
field_first c (y ∷ x) s (IsField.cons h n r) =
    rw (separates-false c y h n, field_first c x s r) refl

fields-join :
    (c : ℕ) (x : Str) (xs : List Str)
    → AllFields c (x ∷ xs)
    → fields (separates (c ∷ [])) (join (c ∷ []) (x ∷ xs)) ≡ x ∷ xs
unfolding join
fields-join c x [] (AllFields.cons f fs) = field_alone c x f
fields-join c x (y ∷ ys) (AllFields.cons f fs) =
    field_first c x (join (c ∷ []) (y ∷ ys)) f ∙ ap (λ w. x ∷ w) (fields-join c y ys fs)

-- If the cached table is that of the cached separators, and without coalescing, the words that a string without NUL is split into at one separator give the string back when they are joined with it.
pub join-fsplit :
    (c : ℕ) (s : Str) (st : Splitter)
    → IsCached st
    → IsText s
    → join (c ∷ []) (fsplit (c ∷ []) (s ∷ []) false st).0 ≡ s
join-fsplit c s st kept t =
    ap (join (c ∷ [])) ((fsplit-all_pieces (c ∷ []) (s ∷ []) false st kept).0 ∙ one_string c s)
    ∙ join-fields c s t

-- If the cached table is that of the cached separators, splitting at a separator byte, without coalescing, one or more words that were joined with it gives these words back, where no word has a NUL or the separator in it.
pub fsplit-join :
    (c : ℕ) (x : Str) (xs : List Str) (st : Splitter)
    → IsCached st
    → AllFields c (x ∷ xs)
    → (fsplit (c ∷ []) (join (c ∷ []) (x ∷ xs) ∷ []) false st).0 ≡ x ∷ xs
fsplit-join c x xs st kept fs =
    (fsplit-all_pieces (c ∷ []) (join (c ∷ []) (x ∷ xs) ∷ []) false st kept).0
    ∙ one_string c (join (c ∷ []) (x ∷ xs))
    ∙ fields-join c x xs fs
