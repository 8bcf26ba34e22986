-- ===== src/Env/Names.antt =====
-- Names survive `%F` and `%N`.
use desh.Common.{
  ℕ, zero, suc, ◌/◌, ◌%◌, ◌<◌, ◌≡◌, ◌≢◌, refl, ap, sym, ◌∙◌, subst, Bool, true, false, ◌&&◌, not,
  Option, none, some, [], ◌∷◌, ◌++◌, ◌==◌, Str, char_at, Bool-cases, inl, inr, arith, ==_iff,
}
use desh.Env.{
  Ctype, hex_digit, hex_value, is_kept, fconv_from, fconv, out, nconv, nconv_from, break_at,
}

-- The bytes of a C string.
abbrev pub IsBytes : Str → Type 0
IsBytes [] = Unit {0}
IsBytes (c ∷ s) = (0 < c) × (c < 256) × IsBytes s

-- Neither the underscore nor `=` is a letter or a digit.
abbrev pub IsCtype : Ctype → Type 0
IsCtype ct =
    (ct.isalpha b'_' ≡ false)
    × (ct.isalnum b'_' ≡ false)
    × (ct.isalpha b'=' ≡ false)
    × (ct.isalnum b'=' ≡ false)

abbrev all_below : ℕ → (ℕ → Bool) → Bool
all_below zero p = true
all_below (suc n) p = p n && all_below n p

all_below_lem : (n : ℕ) (p : ℕ → Bool) (x : ℕ) → all_below n p ≡ true → x < n → p x ≡ true
all_below_lem zero p x h lt = absurd (omega arith)
all_below_lem (suc n) p x h lt = ground (arith, all_below_lem n p x)

abbrev is_value : ℕ → Option ℕ → Bool
is_value n none = false
is_value n (some m) = m == n

-- The digits of every byte are read back.
digits_table :
    all_below 16 (λ n. is_value n (hex_value (hex_digit n)) && not (hex_digit n == b'=')) ≡ true
unfolding hex_value
digits_table = refl

is_value-some : (n : ℕ) (o : Option ℕ) → is_value n o ≡ true → o ≡ some n
is_value-some n none h = ground arith
is_value-some n (some m) h = ap some ((==_iff m n).0 h)

not_right : (a b : Bool) → (a && not b) ≡ true → b ≡ false
not_right true true h = ground arith
not_right true false h = refl
not_right false b h = ground arith

digit_row :
    (n : ℕ) → n < 16 → (is_value n (hex_value (hex_digit n)) && not (hex_digit n == b'=')) ≡ true
digit_row n h =
    all_below_lem 16 (λ n. is_value n (hex_value (hex_digit n)) && not (hex_digit n == b'=')) n
      digits_table h

hex_digit-ne-equals : (n : ℕ) → n < 16 → (hex_digit n == b'=') ≡ false
hex_digit-ne-equals n h =
    not_right (is_value n (hex_value (hex_digit n))) (hex_digit n == b'=') (digit_row n h)

hex_value-hex_digit : (n : ℕ) → n < 16 → hex_value (hex_digit n) ≡ some n
hex_value-hex_digit n h = is_value-some n (hex_value (hex_digit n)) (ground (arith, digit_row n h))

nconv-escape :
    (c : ℕ) (s : Str)
    → c < 256
    → nconv (b'_' ∷ b'_' ∷ hex_digit (c / 16 % 16) ∷ hex_digit (c % 16) ∷ s) ≡ out c (nconv s)
unfolding nconv nconv_from
nconv-escape c s h =
    rw (hex_value-hex_digit (c / 16 % 16) (omega arith), hex_value-hex_digit (c % 16) (omega arith))
      (ap (λ k. out k (nconv s)) (omega arith))

ne→false : (c d : ℕ) → c ≢ d → (c == d) ≡ false
ne→false c d h = ground arith

-- Whatever follows a byte that is not an underscore, it stands for itself.
nconv_plain : (c : ℕ) (s : Str) → c ≢ b'_' → nconv (c ∷ s) ≡ out c (nconv s)
unfolding nconv nconv_from
nconv_plain c s h = rw (ne→false c b'_' h) refl

false_right : (a : Bool) → (a && false) ≡ false
false_right true = refl
false_right false = refl

-- So does a byte before one that is not.
nconv_before : (c d : ℕ) (s : Str) → d ≢ b'_' → nconv (c ∷ d ∷ s) ≡ out c (nconv (d ∷ s))
unfolding nconv nconv_from
nconv_before c d s h = rw (ne→false d b'_' h, false_right (c == b'_')) refl

-- The third underscore is not a digit.
nconv_three :
    (h : ℕ) (s : Str) → nconv (b'_' ∷ b'_' ∷ b'_' ∷ h ∷ s) ≡ out b'_' (nconv (b'_' ∷ b'_' ∷ h ∷ s))
unfolding nconv nconv_from
nconv_three h s = refl

nconv_nil : nconv [] ≡ some []
unfolding nconv nconv_from
nconv_nil = refl

nconv_one : (c : ℕ) → nconv (c ∷ []) ≡ out c (nconv [])
unfolding nconv nconv_from
nconv_one c = rw (false_right (c == b'_')) refl

abbrev pub NoUnderscore : Str → Type 0
NoUnderscore [] = Unit {0}
NoUnderscore (c ∷ s) = (c ≢ b'_') × NoUnderscore s

module _ (ct : Ctype) (ok : IsCtype ct) where
  kept_ne : (first : Bool) (s : Str) → is_kept ct first b'_' s ≡ not (char_at s 0 == b'_')
  kept_ne true s = rw (ok.0) refl
  kept_ne false s = rw (ok.1) refl

  -- An underscore that is kept stands before nothing, another byte, or an encoded one.
  nconv_kept :
      (s : Str)
      → char_at s 0 ≢ b'_'
      → nconv (b'_' ∷ fconv_from ct false s) ≡ out b'_' (nconv (fconv_from ct false s))
  unfolding fconv_from
  nconv_kept [] h = nconv_one b'_'
  nconv_kept (d ∷ s) h = elim (Bool-cases (is_kept ct false d s)) [
    | inl e ↦ rw e (nconv_before b'_' d (fconv_from ct false s) h)
    | inr e ↦
        rw e (nconv_three (hex_digit (d / 16 % 16)) (hex_digit (d % 16) ∷ fconv_from ct false s))
  ]

  kept-nconv :
      (first : Bool) (c : ℕ) (s : Str)
      → is_kept ct first c s ≡ true
      → nconv (c ∷ fconv_from ct false s) ≡ out c (nconv (fconv_from ct false s))
  kept-nconv first c s e = elim (Bool-cases (c == b'_')) [
    | inl u ↦
        let eq = (==_iff c b'_').0 u in
        let kept = sym (kept_ne first s) ∙ subst (λ k. is_kept ct first k s ≡ true) eq e in
        subst (λ k. nconv (k ∷ fconv_from ct false s) ≡ out k (nconv (fconv_from ct false s)))
          (sym eq) (nconv_kept s (ground (arith, kept)))
    | inr u ↦ nconv_plain c (fconv_from ct false s) (ground arith)
  ]

  nconv-fconv_from :
      (first : Bool) (name : Str) → IsBytes name → nconv (fconv_from ct first name) ≡ some name
  unfolding fconv_from
  nconv-fconv_from first [] h = nconv_nil
  nconv-fconv_from first (c ∷ s) (p, b, h) = elim (Bool-cases (is_kept ct first c s)) [
    | inl e ↦ rw e (kept-nconv first c s e ∙ ap (out c) (nconv-fconv_from false s h))
    | inr e ↦
        rw e (nconv-escape c (fconv_from ct false s) b ∙ ap (out c) (nconv-fconv_from false s h))
  ]

  -- If the underscore is no letter or digit, decoding what a name is encoded as gives the name back, and reads nothing behind its end.
  pub nconv-fconv : (name : Str) → IsBytes name → nconv (fconv ct name) ≡ some name
  unfolding fconv
  nconv-fconv name h = nconv-fconv_from true name h

  kept_equals : (first : Bool) (s : Str) → is_kept ct first b'=' s ≡ false
  kept_equals true s = rw (ok.2) refl
  kept_equals false s = rw (ok.3) refl

  kept_ne_equals :
      (first : Bool) (c : ℕ) (s : Str) → is_kept ct first c s ≡ true → (c == b'=') ≡ false
  kept_ne_equals first c s e = elim (Bool-cases (c == b'=')) [
    | inl u ↦
        let kept = subst (λ k. is_kept ct first k s ≡ true) ((==_iff c b'=').0 u) e in
        absurd (cc (sym kept ∙ kept_equals first s))
    | inr u ↦ u
  ]

  -- An encoded name holds no `=`.
  break_at-fconv_from :
      (first : Bool) (name rest : Str)
      → break_at b'=' (fconv_from ct first name ++ b'=' ∷ rest)
        ≡ some (fconv_from ct first name, b'=' ∷ rest)
  unfolding fconv_from break_at
  break_at-fconv_from first [] rest = refl
  break_at-fconv_from first (c ∷ s) rest = elim (Bool-cases (is_kept ct first c s)) [
    | inl e ↦ rw (e, kept_ne_equals first c s e, break_at-fconv_from false s rest) refl
    | inr e ↦
        rw
          (
            e,
            hex_digit-ne-equals (c / 16 % 16) (omega arith),
            hex_digit-ne-equals (c % 16) (omega arith),
            break_at-fconv_from false s rest,
          )
          refl
  ]

  pub break_at-fconv :
      (name rest : Str)
      → break_at b'=' (fconv ct name ++ b'=' ∷ rest) ≡ some (fconv ct name, b'=' ∷ rest)
  unfolding fconv
  break_at-fconv name rest = break_at-fconv_from true name rest
