-- ===== src/Env/Losses.antt =====
-- What `importvar` does to words with more than one separator or escape.
use desh.Common.{
  ℕ, suc, ◌+◌, ◌≡◌, refl, ap, sym, ◌∙◌, List, [], ◌∷◌, ◌++◌, Str, length, append_assoc, arith, true,
  false, if◌then◌else◌,
}
use desh.Split.{Splitter, fsplit}
use desh.Split.Cache.{IsCached}
use desh.Split.Join.{join, IsField, AllFields, fsplit-join}
use desh.Env.{
  env_separator, env_escape, wconv_word, wconv, break_at, is_some, undo_escapes, undo_words,
  importvar,
}
use desh.Env.Import.{break_at_equals}
use desh.Env.Undo.{
  undo_escapes_once, undo_escape-end, undo_escapes_done, break_at-plain, break_at-first,
  drop_behind,
}
use desh.Env.Words.{
  IsPlain, wconv_word-special, wconv_word-plain, wconv_first, plain-IsField, append-IsField,
  escape-IsField,
}

-- The word, and what it is split into.
abbrev two_separators : Str → Str → Str → Str
two_separators a b c = a ++ env_separator ∷ (b ++ env_separator ∷ c)

abbrev three_parts : Str → Str → Str → List Str
three_parts a b c = (a ++ env_escape ∷ []) ∷ (b ++ env_escape ∷ []) ∷ c ∷ []

wconv-join_three :
    (a b c : Str)
    → IsPlain a
    → IsPlain b
    → IsPlain c
    → wconv (two_separators a b c ∷ []) ≡ join (env_separator ∷ []) (three_parts a b c)
unfolding wconv join
wconv-join_three a b c ha hb hc =
    wconv_word-plain a (env_separator ∷ (b ++ env_separator ∷ c)) ha
    ∙ ap (λ s. a ++ s)
        (wconv_first env_separator (b ++ env_separator ∷ c) refl
          ∙ ap (λ s. env_escape ∷ env_separator ∷ s)
              (wconv_word-special b c env_separator hb hc refl))
    ∙ sym (
        append_assoc a (env_escape ∷ [])
          (env_separator ∷ ((b ++ env_escape ∷ []) ++ env_separator ∷ c))
        ∙ ap (λ s. a ++ env_escape ∷ env_separator ∷ s)
            (append_assoc b (env_escape ∷ []) (env_separator ∷ c)))

three_parts-AllFields :
    (a b c : Str) → IsPlain a → IsPlain b → IsPlain c → AllFields env_separator (three_parts a b c)
three_parts-AllFields a b c ha hb hc =
    AllFields.cons (append-IsField a (env_escape ∷ []) ha (escape-IsField [] IsField.nil)) (
      AllFields.cons (append-IsField b (env_escape ∷ []) hb (escape-IsField [] IsField.nil))
        (AllFields.cons (plain-IsField c hc) AllFields.nil))

-- The second word is appended to the first, and its escape is not looked at.
undo_words-three :
    (f : ℕ) (a b c : Str)
    → IsPlain a
    → IsPlain c
    → undo_words (suc (suc (suc f))) (three_parts a b c)
      ≡ (a ++ env_separator ∷ (b ++ env_escape ∷ [])) ∷ c ∷ []
unfolding undo_words
undo_words-three f a b c ha hc =
    let w = a ++ env_escape ∷ [] in
    let next = (b ++ env_escape ∷ []) ∷ c ∷ [] in
    let round = λ (k : ℕ). undo_escapes k w 0 (w, next) in
    let merged = a ++ env_separator ∷ (b ++ env_escape ∷ []) in
    ap (λ k. (round k).0 ∷ undo_words (suc (suc f)) (round k).1) (one_more w)
    ∙ ap (λ p. p.0 ∷ undo_words (suc (suc f)) p.1)
        (undo_escapes_once (length w) (length a) w (env_escape ∷ []) a (w, next) (merged, c ∷ [])
          (length a + 1) (break_at-first a [] ha) refl
          (undo_escape-end a (b ++ env_escape ∷ []) w (c ∷ []))
          (ap (break_at env_escape) (drop_behind a []) ∙ break_at-plain [] tt))
    ∙ ap (λ p. merged ∷ p.0 ∷ undo_words (suc f) p.1)
        (undo_escapes_done (length c + 1) c 0 (c, []) (break_at-plain c hc))
  where
    one_more : (w : Str) → length w + 1 ≡ suc (length w)
    one_more w = omega arith

wconv_word-plain_first :
    (a b c : Str)
    → IsPlain a
    → wconv (two_separators a b c ∷ [])
      ≡ a ++ env_escape ∷ env_separator ∷ wconv_word (b ++ env_separator ∷ c)
unfolding wconv
wconv_word-plain_first a b c ha =
    wconv_word-plain a (env_separator ∷ (b ++ env_separator ∷ c)) ha
    ∙ ap (λ s. a ++ s) (wconv_first env_separator (b ++ env_separator ∷ c) refl)

-- The value holds an escape.
escape_there :
    (a b c : Str)
    → IsPlain a
    → IsPlain b
    → IsPlain c
    → is_some (break_at env_escape (b'=' ∷ wconv (two_separators a b c ∷ []))) ≡ true
escape_there a b c ha hb hc =
    break_at_equals (wconv (two_separators a b c ∷ []))
    ∙ ap (λ s. is_some (break_at env_escape s)) (wconv_word-plain_first a b c ha)
    ∙ ap is_some (break_at-first a (env_separator ∷ wconv_word (b ++ env_separator ∷ c)) ha)

-- If the cached table of the splitter is that of its separators, a word with two separators and plain text around them, which is exported alone, is imported as two words, the first with the second separator turned into an escape.
pub importvar_two_separators :
    (a b c : Str) (st : Splitter)
    → IsCached st
    → IsPlain a
    → IsPlain b
    → IsPlain c
    → (importvar (b'=' ∷ wconv ((a ++ env_separator ∷ (b ++ env_separator ∷ c)) ∷ [])) st).0
      ≡ (a ++ env_separator ∷ (b ++ env_escape ∷ [])) ∷ c ∷ []
unfolding importvar
importvar_two_separators a b c st kept ha hb hc =
    let v = wconv (two_separators a b c ∷ []) in
    let split : (fsplit (env_separator ∷ []) (v ∷ []) false st).0 ≡ three_parts a b c =
      ap (λ s. (fsplit (env_separator ∷ []) (s ∷ []) false st).0) (wconv-join_three a b c ha hb hc)
      ∙ fsplit-join env_separator (a ++ env_escape ∷ []) ((b ++ env_escape ∷ []) ∷ c ∷ []) st kept
          (three_parts-AllFields a b c ha hb hc) in
    ap
      (λ ws. if is_some (break_at env_escape (b'=' ∷ v)) then undo_words (length ws + 1) ws else ws)
      split
    ∙ rw (escape_there a b c ha hb hc) (undo_words-three 1 a b c ha hc)
