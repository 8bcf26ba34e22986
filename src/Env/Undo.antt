-- ===== src/Env/Undo.antt =====
-- The loops of `importvar` that undo the escapes.
use desh.Common.{
  ℕ, zero, suc, ◌+◌, ◌≤◌, ◌≡◌, refl, ap, ◌∙◌, Option, none, some, List, [], ◌∷◌, ◌++◌, map, ◌==◌,
  Str, char_at, take, drop, length, Bool-cases, inl, inr, arith, append-nil, append_assoc,
  length-append, get_or-append_right, take-append_length, drop-append_length, ◌>>=◌,
}
use desh.Env.{
  env_separator, env_escape, break_at, TermPlace, undo_round, undo_escape, undo_escapes, undo_words,
}
use desh.Split.Join.{join}
use desh.Env.Words.{
  IsPlain, Shape, plain, escape, separated, text, IsShape, AllShapes, first, others, parts,
}

pub break_at-plain : (a : Str) → IsPlain a → break_at env_escape a ≡ none
unfolding break_at
break_at-plain [] h = refl
break_at-plain (c ∷ a) (z, p, e, h) = ground (arith, break_at-plain a h)

pub break_at-first :
    (a s : Str) → IsPlain a → break_at env_escape (a ++ env_escape ∷ s) ≡ some (a, env_escape ∷ s)
unfolding break_at
break_at-first [] s h = refl
break_at-first (c ∷ a) s (z, p, e, h) = ground (arith, break_at-first a s h)

-- No escape from the offset on: the place stays.
pub undo_escapes_done :
    (f : ℕ) (word : Str) (offset : ℕ) (place : TermPlace)
    → break_at env_escape (drop offset word) ≡ none
    → undo_escapes f word offset place ≡ place
unfolding undo_escapes undo_round
undo_escapes_done zero word offset place h = refl
undo_escapes_done (suc f) word offset place h = rw h refl

-- An escape at `n`, that the switch deals with, and no other from the new offset on.
pub undo_escapes_once :
    (f n : ℕ) (word s : Str) (p : Str) (place place' : TermPlace) (offset : ℕ)
    → break_at env_escape word ≡ some (p, s)
    → length p ≡ n
    → undo_escape word (n + 1) place ≡ (place', offset)
    → break_at env_escape (drop offset word) ≡ none
    → undo_escapes (suc f) word 0 place ≡ place'
unfolding undo_escapes undo_round
undo_escapes_once f n word s p place place' offset b l u d = rw b (
    ap (λ k. undo_escapes f word (undo_escape word k place).1 (undo_escape word k place).0)
      (omega (arith, l))
    ∙ ap (λ r. undo_escapes f word r.1 r.0) u
    ∙ undo_escapes_done f word offset place' d)

-- The bytes around the offset behind the first escape.
module _ (a s : Str) where
  char_behind : char_at (a ++ env_escape ∷ s) (length a + 1) ≡ char_at s 0
  char_behind = get_or-append_right a (env_escape ∷ s) 1 0

  take_behind : take (length a + 1) (a ++ env_escape ∷ s) ≡ a ++ env_escape ∷ []
  take_behind = take-append_length a (env_escape ∷ s) 1

  pub drop_behind : drop (length a + 1) (a ++ env_escape ∷ s) ≡ s
  drop_behind = drop-append_length a (env_escape ∷ s) 1

  drop_further : drop (length a + 1 + 1) (a ++ env_escape ∷ s) ≡ drop 1 s
  drop_further =
      ap (λ k. drop k (a ++ env_escape ∷ s)) (omega arith) ∙ drop-append_length a (env_escape ∷ s) 2

undo_escape-twice :
    (a b : Str) (str : Str) (next : List Str)
    → undo_escape (a ++ env_escape ∷ env_escape ∷ b) (length a + 1) (str, next)
      ≡ ((a ++ env_escape ∷ b, next), length a + 1 + 1)
unfolding undo_escape
undo_escape-twice a b str [] =
    rw
      (
        char_behind a (env_escape ∷ b),
        take_behind a (env_escape ∷ b),
        drop_further a (env_escape ∷ b),
      )
      (ap (λ w. ((w, []), length a + 1 + 1)) (append_assoc a (env_escape ∷ []) b))
undo_escape-twice a b str (v ∷ next) =
    rw
      (
        char_behind a (env_escape ∷ b),
        take_behind a (env_escape ∷ b),
        drop_further a (env_escape ∷ b),
      )
      (ap (λ w. ((w, v ∷ next), length a + 1 + 1)) (append_assoc a (env_escape ∷ []) b))

pub undo_escape-end :
    (a b : Str) (str : Str) (next : List Str)
    → undo_escape (a ++ env_escape ∷ []) (length a + 1) (str, b ∷ next)
      ≡ ((a ++ env_separator ∷ b, next), length a + 1)
unfolding undo_escape
undo_escape-end a b str next = rw (char_behind a []) (
    ap (λ w. ((w ++ env_separator ∷ b, next), length a + 1))
      (ap (λ k. take k (a ++ env_escape ∷ [])) (omega arith)
        ∙ take-append_length a (env_escape ∷ []) 0
        ∙ append-nil a))

-- The rounds for the parts of one word.
pub undo-shape :
    (f : ℕ) (x : Shape) (next : List Str)
    → IsShape x
    → undo_escapes (suc f) (first x) 0 (first x, others x ++ next) ≡ (text x, next)
undo-shape f (plain a) next h = undo_escapes_done (suc f) a 0 (a, next) (break_at-plain a h)
undo-shape f (escape a b) next (ha, hb) =
    undo_escapes_once f (length a) (a ++ env_escape ∷ env_escape ∷ b) (env_escape ∷ env_escape ∷ b)
      a (a ++ env_escape ∷ env_escape ∷ b, next) (a ++ env_escape ∷ b, next) (length a + 1 + 1)
      (break_at-first a (env_escape ∷ b) ha) refl
      (undo_escape-twice a b (a ++ env_escape ∷ env_escape ∷ b) next)
      (ap (break_at env_escape) (drop_further a (env_escape ∷ b)) ∙ break_at-plain b hb)
undo-shape f (separated a b) next (ha, hb) =
    undo_escapes_once f (length a) (a ++ env_escape ∷ []) (env_escape ∷ []) a
      (a ++ env_escape ∷ [], b ∷ next) (a ++ env_separator ∷ b, next) (length a + 1)
      (break_at-first a [] ha) refl (undo_escape-end a b (a ++ env_escape ∷ []) next)
      (ap (break_at env_escape) (drop_behind a []) ∙ break_at-plain [] tt)

pub undo_words-parts :
    (f : ℕ) (xs : List Shape)
    → AllShapes xs
    → length (parts xs) ≤ f
    → undo_words (suc f) (parts xs) ≡ map text xs
unfolding undo_words
undo_words-parts f [] h l = refl
undo_words-parts zero (x ∷ xs) h l = absurd (omega arith)
undo_words-parts (suc f) (x ∷ xs) (h, hs) l =
    let w = first x in
    let round = λ (k : ℕ). undo_escapes k w 0 (w, others x ++ parts xs) in
    ap (λ k. (round k).0 ∷ undo_words (suc f) (round k).1) (one_more w)
    ∙ ap (λ p. p.0 ∷ undo_words (suc f) p.1) (undo-shape (length w) x (parts xs) h)
    ∙ ap (λ ws. text x ∷ ws)
        (undo_words-parts f xs hs (omega (arith, length-append (others x) (parts xs))))
  where
    one_more : (w : Str) → length w + 1 ≡ suc (length w)
    one_more w = omega arith

abbrev NoEscapes : List Str → Type 0
NoEscapes [] = Unit {0}
NoEscapes (w ∷ ws) = (break_at env_escape w ≡ none) × NoEscapes ws

-- Without an escape the rounds change nothing.
undo_words_same :
    (f : ℕ) (ws : List Str) → length ws ≤ f → NoEscapes ws → undo_words (suc f) ws ≡ ws
unfolding undo_words
undo_words_same f [] l h = refl
undo_words_same zero (w ∷ ws) l h = absurd (omega arith)
undo_words_same (suc f) (w ∷ ws) l (h, hs) =
    ap (λ (p : TermPlace). p.0 ∷ undo_words (suc f) p.1)
      (undo_escapes_done (length w + 1) w 0 (w, ws) h)
    ∙ ap (λ vs. w ∷ vs) (undo_words_same f ws (omega arith) hs)

bind_none :
    (o : Option (Str × Str)) (f : Str × Str → Str × Str)
    → (o >>= (λ r. some (f r))) ≡ none
    → o ≡ none
bind_none none f h = refl
bind_none (some r) f h = cc

break_at-append :
    (c : ℕ) (s t : Str) → break_at c (s ++ t) ≡ none → (break_at c s ≡ none) × (break_at c t ≡ none)
unfolding break_at
break_at-append c [] t h = (refl, h)
break_at-append c (x ∷ s) t h = elim (Bool-cases (x == c)) [
  | inl e ↦ ground (arith, e)
  | inr e ↦
      let (a, b) =
        break_at-append c s t
          (bind_none (break_at c (s ++ t)) (λ (p, q). (x ∷ p, q)) (rw e at h)) in
      (rw (e, a) refl, b)
]

-- So they change nothing if the joined words hold no escape.
join-NoEscapes :
    (ws : List Str) → break_at env_escape (join (env_separator ∷ []) ws) ≡ none → NoEscapes ws
unfolding join
join-NoEscapes [] h = tt
join-NoEscapes (w ∷ []) h = (h, tt)
join-NoEscapes (w ∷ v ∷ ws) h =
    let (a, b) =
      break_at-append env_escape w (env_separator ∷ join (env_separator ∷ []) (v ∷ ws)) h in
    (
      a,
      join-NoEscapes (v ∷ ws)
          (break_at-append env_escape (env_separator ∷ []) (join (env_separator ∷ []) (v ∷ ws))
            b).1,
    )

pub undo_words-join :
    (ws : List Str)
    → break_at env_escape (join (env_separator ∷ []) ws) ≡ none
    → undo_words (suc (length ws)) ws ≡ ws
undo_words-join ws h = undo_words_same (length ws) ws (omega arith) (join-NoEscapes ws h)
