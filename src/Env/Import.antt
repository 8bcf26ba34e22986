-- ===== src/Env/Import.antt =====
-- What is exported to the environment is imported again.
use desh.Common.{
  suc, ◌+◌, ◌≡◌, refl, ap, sym, ◌∙◌, subst, false, Option, none, some, List, [], ◌∷◌, ◌++◌, map,
  if◌then◌else◌, Str, length, Bool-cases, inl, inr, arith, ◌>>=◌,
}
use desh.Split.{Splitter, fsplit}
use desh.Split.Cache.{IsCached}
use desh.Split.Join.{fsplit-join}
use desh.Env.{env_separator, env_escape, wconv, break_at, is_some, undo_words, importvar}
use desh.Env.Words.{Shape, text, AllShapes, parts, first, others, wconv-join, parts-AllFields}
use desh.Env.Undo.{undo_words-parts, undo_words-join}

break_at_empty : (o : Option (Str × Str)) → is_some o ≡ false → o ≡ none
break_at_empty none h = refl
break_at_empty (some r) h = ground arith

pub break_at_equals :
    (s : Str) → is_some (break_at env_escape (b'=' ∷ s)) ≡ is_some (break_at env_escape s)
unfolding break_at
break_at_equals s = go (break_at env_escape s)
  where
    front : Str × Str → Str × Str
    front r = (b'=' ∷ r.0, r.1)

    go : (o : Option (Str × Str)) → is_some (o >>= (λ r. some (front r))) ≡ is_some o
    go none = refl
    go (some r) = refl

one_more : (ws : List Str) → length ws + 1 ≡ suc (length ws)
one_more ws = omega arith

-- The test for an escape in the value decides between two results that agree.
chosen :
    (x : Shape) (xs : List Shape)
    → AllShapes (x ∷ xs)
    → (if is_some (break_at env_escape (b'=' ∷ wconv (map text (x ∷ xs))))
        then undo_words (length (parts (x ∷ xs)) + 1) (parts (x ∷ xs))
        else parts (x ∷ xs))
      ≡ map text (x ∷ xs)
chosen x xs h =
    let ps = parts (x ∷ xs) in
    let undone = undo_words-parts (length ps) (x ∷ xs) h (omega arith) in
    elim (Bool-cases (is_some (break_at env_escape (b'=' ∷ wconv (map text (x ∷ xs)))))) [
      | inl e ↦ rw e (ap (λ k. undo_words k ps) (one_more ps) ∙ undone)
      | inr e ↦
          let none_there =
            break_at_empty (break_at env_escape (wconv (map text (x ∷ xs))))
              (sym (break_at_equals (wconv (map text (x ∷ xs)))) ∙ e) in
          rw e (
            sym (
              undo_words-join ps
                (subst (λ s. break_at env_escape s ≡ none) (wconv-join x xs h) none_there))
            ∙ undone)
    ]

-- If the cached table of the splitter is that of its separators, importing at least one word, each with at most one separator or escape in it, from the value that they are encoded as gives the words back.
pub importvar-wconv :
    (x : Shape) (xs : List Shape) (st : Splitter)
    → IsCached st
    → AllShapes (x ∷ xs)
    → (importvar (b'=' ∷ wconv (map text (x ∷ xs))) st).0 ≡ map text (x ∷ xs)
unfolding importvar
importvar-wconv x xs st kept h =
    let v = wconv (map text (x ∷ xs)) in
    let ps = parts (x ∷ xs) in
    let split : (fsplit (env_separator ∷ []) (v ∷ []) false st).0 ≡ ps =
      ap (λ s. (fsplit (env_separator ∷ []) (s ∷ []) false st).0) (wconv-join x xs h)
      ∙ fsplit-join env_separator (first x) (others x ++ parts xs) st kept
          (parts-AllFields (x ∷ xs) h) in
    ap
      (λ ws. if is_some (break_at env_escape (b'=' ∷ v)) then undo_words (length ws + 1) ws else ws)
      split
    ∙ chosen x xs h
