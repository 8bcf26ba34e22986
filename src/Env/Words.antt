-- ===== src/Env/Words.antt =====
-- Words with at most one separator or escape in them survive `%W` and `importvar`.
use desh.Common.{
  ℕ, ◌≡◌, ◌≢◌, refl, ap, sym, ◌∙◌, true, ◌||◌, List, [], ◌∷◌, ◌++◌, map, ◌==◌, Str, arith,
  append_assoc,
}
use desh.Split.Join.{join, IsField, AllFields}
use desh.Env.{env_separator, env_escape, wconv_word, wconv}

-- A string without NUL, separator or escape.
abbrev pub IsPlain : Str → Type 0
IsPlain [] = Unit {0}
IsPlain (c ∷ s) = (c ≢ 0) × (c ≢ env_separator) × (c ≢ env_escape) × IsPlain s

-- A word with at most one of the two bytes, between plain strings.
pub data Shape : Type 0 where
  plain : Str → Shape
  escape separated : Str → Str → Shape

abbrev pub text : Shape → Str
text (plain a) = a
text (escape a b) = a ++ env_escape ∷ b
text (separated a b) = a ++ env_separator ∷ b

abbrev pub IsShape : Shape → Type 0
IsShape (plain a) = IsPlain a
IsShape (escape a b) = IsPlain a × IsPlain b
IsShape (separated a b) = IsPlain a × IsPlain b

abbrev pub AllShapes : List Shape → Type 0
AllShapes [] = Unit {0}
AllShapes (x ∷ xs) = IsShape x × AllShapes xs

-- What the encoded word is split into at the separator.
abbrev pub first : Shape → Str
first (plain a) = a
first (escape a b) = a ++ env_escape ∷ env_escape ∷ b
first (separated a b) = a ++ env_escape ∷ []

abbrev pub others : Shape → List Str
others (plain a) = []
others (escape a b) = []
others (separated a b) = b ∷ []

abbrev pub parts : List Shape → List Str
parts [] = []
parts (x ∷ xs) = first x ∷ (others x ++ parts xs)

pub wconv_word-plain : (a s : Str) → IsPlain a → wconv_word (a ++ s) ≡ a ++ wconv_word s
unfolding wconv_word
wconv_word-plain [] s h = refl
wconv_word-plain (c ∷ a) s (z, p, e, h) = ground (arith, wconv_word-plain a s h)

pub wconv_word-all_plain : (a : Str) → IsPlain a → wconv_word a ≡ a
unfolding wconv_word
wconv_word-all_plain [] h = refl
wconv_word-all_plain (c ∷ a) (z, p, e, h) = ground (arith, wconv_word-all_plain a h)

pub wconv_first :
    (c : ℕ) (b : Str)
    → ((c == env_escape) || (c == env_separator)) ≡ true
    → wconv_word (c ∷ b) ≡ env_escape ∷ c ∷ wconv_word b
unfolding wconv_word
wconv_first c b e = rw e refl

pub wconv_word-special :
    (a b : Str) (c : ℕ)
    → IsPlain a
    → IsPlain b
    → ((c == env_escape) || (c == env_separator)) ≡ true
    → wconv_word (a ++ c ∷ b) ≡ a ++ env_escape ∷ c ∷ b
wconv_word-special a b c ha hb e =
    wconv_word-plain a (c ∷ b) ha ∙ ap (λ s. a ++ s) (special_first e)
  where
    special_first :
        ((c == env_escape) || (c == env_separator)) ≡ true → wconv_word (c ∷ b) ≡ env_escape ∷ c ∷ b
    special_first e = wconv_first c b e ∙ ap (λ s. env_escape ∷ c ∷ s) (wconv_word-all_plain b hb)

join_two :
    (x : Shape) (p : Str) (ps : List Str)
    → IsShape x
    → join (env_separator ∷ []) (first x ∷ (others x ++ p ∷ ps))
      ≡ wconv_word (text x) ++ env_separator ∷ join (env_separator ∷ []) (p ∷ ps)
unfolding join
join_two (plain a) p ps h = rw (wconv_word-all_plain a h) refl
join_two (escape a b) p ps (ha, hb) = rw (wconv_word-special a b env_escape ha hb refl) refl
join_two (separated a b) p ps (ha, hb) = rw (wconv_word-special a b env_separator ha hb refl) (
    append_assoc a (env_escape ∷ [])
      (env_separator ∷ (b ++ env_separator ∷ join (env_separator ∷ []) (p ∷ ps)))
    ∙ sym (
        append_assoc a (env_escape ∷ env_separator ∷ b)
          (env_separator ∷ join (env_separator ∷ []) (p ∷ ps))))

join_one :
    (x : Shape) → IsShape x → join (env_separator ∷ []) (parts (x ∷ [])) ≡ wconv_word (text x)
unfolding join
join_one (plain a) h = sym (wconv_word-all_plain a h)
join_one (escape a b) (ha, hb) = sym (wconv_word-special a b env_escape ha hb refl)
join_one (separated a b) (ha, hb) =
    append_assoc a (env_escape ∷ []) (env_separator ∷ b)
    ∙ sym (wconv_word-special a b env_separator ha hb refl)

pub wconv-join :
    (x : Shape) (xs : List Shape)
    → AllShapes (x ∷ xs)
    → wconv (map text (x ∷ xs)) ≡ join (env_separator ∷ []) (parts (x ∷ xs))
unfolding wconv
wconv-join x [] (h, hs) = sym (join_one x h)
wconv-join x (y ∷ ys) (h, hs) =
    ap (λ s. wconv_word (text x) ++ env_separator ∷ s) (wconv-join y ys hs)
    ∙ sym (join_two x (first y) (others y ++ parts ys) h)

pub plain-IsField : (a : Str) → IsPlain a → IsField env_separator a
plain-IsField [] h = IsField.nil
plain-IsField (c ∷ a) (z, p, e, h) = IsField.cons z (λ q. p (sym q)) (plain-IsField a h)

pub append-IsField :
    (a s : Str) → IsPlain a → IsField env_separator s → IsField env_separator (a ++ s)
append-IsField [] s h f = f
append-IsField (c ∷ a) s (z, p, e, h) f = IsField.cons z (λ q. p (sym q)) (append-IsField a s h f)

pub escape-IsField : (s : Str) → IsField env_separator s → IsField env_separator (env_escape ∷ s)
escape-IsField s f = IsField.cons (ground arith) (ground arith) f

pub parts-AllFields : (xs : List Shape) → AllShapes xs → AllFields env_separator (parts xs)
parts-AllFields [] h = AllFields.nil
parts-AllFields (plain a ∷ xs) (h, hs) = AllFields.cons (plain-IsField a h) (parts-AllFields xs hs)
parts-AllFields (escape a b ∷ xs) ((ha, hb), hs) =
    AllFields.cons
      (append-IsField a (env_escape ∷ env_escape ∷ b) ha
        (escape-IsField (env_escape ∷ b) (escape-IsField b (plain-IsField b hb))))
      (parts-AllFields xs hs)
parts-AllFields (separated a b ∷ xs) ((ha, hb), hs) =
    AllFields.cons (append-IsField a (env_escape ∷ []) ha (escape-IsField [] IsField.nil))
      (AllFields.cons (plain-IsField b hb) (parts-AllFields xs hs))
