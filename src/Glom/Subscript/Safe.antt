-- ===== src/Glom/Subscript/Safe.antt =====
-- `subscript` never goes past the end of the list.
use desh.Common.{
  ℕ, zero, suc, sym, subst, Bool, true, false, List, [], ◌∷◌, Str, length, if◌then◌else◌,
}
use desh.Glom.Terms.{ℤ, Failure, Outcome}
use desh.Glom.Subscript.{is_dots, positive, subscript}
use desh.Glom.Subscript.Ranges.{
  also, min, number, ranges, open_ranges, all_ranges, select, subscript-select,
}

-- A result or the failure of `subscript`, and no use of NULL.
pub data IsDefined {ℓ} {A : Type ℓ} : Outcome A → Type ℓ where
  value_defined : {a : A} → IsDefined (Outcome.value a)
  failed_defined : {s : Str} → IsDefined (Outcome.failed (Failure.bad_subscript s))

also-IsDefined {ℓ} :
    {A : Type ℓ} (r : A) (o : Outcome (List A)) → IsDefined o → IsDefined (also r o)
also-IsDefined r o value_defined = value_defined
also-IsDefined r o failed_defined = failed_defined

positive-IsDefined {ℓ} :
    {A : Type ℓ} (z : ℤ) (s : Str) (f : ℕ → Outcome A)
    → ((n : ℕ) → IsDefined (f n))
    → IsDefined (positive z s f)
positive-IsDefined (ℤ.pos zero) s f h = failed_defined
positive-IsDefined (ℤ.pos (suc n)) s f h = h (suc n)
positive-IsDefined (ℤ.negsuc n) s f h = failed_defined

if-IsDefined {ℓ} :
    {A : Type ℓ} (b : Bool) (x y : Outcome A)
    → IsDefined x
    → IsDefined y
    → IsDefined (if b then x else y)
if-IsDefined true x y d e = d
if-IsDefined false x y d e = e

module _ {T : Type 0} (getstr : T → Str) (atoi : Str → ℤ) (len : ℕ) where
  upto-IsDefined :
      (lo : ℕ) (u : T) (o : Outcome (List (ℕ × ℕ)))
      → IsDefined o
      → IsDefined (number getstr atoi len u (λ hi. also (lo, min len hi) o))
  upto-IsDefined lo u o d =
      positive-IsDefined (atoi (getstr u)) (getstr u) (λ hi. also (lo, min len hi) o)
        (λ hi. also-IsDefined (lo, min len hi) o d)

  ranges-IsDefined : (subs : List T) → IsDefined (ranges getstr atoi len subs)
  unfolding ranges
  ranges-IsDefined [] = value_defined
  ranges-IsDefined (t ∷ []) =
      positive-IsDefined (atoi (getstr t)) (getstr t) (λ lo. Outcome.value ((lo, lo) ∷ []))
        (λ lo. value_defined)
  ranges-IsDefined (t ∷ d ∷ []) =
      let next = ranges getstr atoi len (d ∷ []) in
      let dots = is_dots (getstr d) in
      positive-IsDefined (atoi (getstr t)) (getstr t)
        (λ lo. if dots then Outcome.value ((lo, len) ∷ []) else also (lo, lo) next)
        (λ lo.
          if-IsDefined dots (Outcome.value ((lo, len) ∷ [])) (also (lo, lo) next) value_defined
            (also-IsDefined (lo, lo) next (ranges-IsDefined (d ∷ []))))
  ranges-IsDefined (t ∷ d ∷ u ∷ subs) =
      let next = ranges getstr atoi len (d ∷ u ∷ subs) in
      let rest = ranges getstr atoi len subs in
      let dots = is_dots (getstr d) in
      positive-IsDefined (atoi (getstr t)) (getstr t)
        (λ lo.
          if dots
          then number getstr atoi len u (λ hi. also (lo, min len hi) rest)
          else also (lo, lo) next)
        (λ lo.
          if-IsDefined dots (number getstr atoi len u (λ hi. also (lo, min len hi) rest))
            (also (lo, lo) next) (upto-IsDefined lo u rest (ranges-IsDefined subs))
            (also-IsDefined (lo, lo) next (ranges-IsDefined (d ∷ u ∷ subs))))

  all_ranges-IsDefined : (subs : List T) → IsDefined (all_ranges getstr atoi len subs)
  unfolding all_ranges open_ranges
  all_ranges-IsDefined [] = value_defined
  all_ranges-IsDefined (t ∷ []) =
      if-IsDefined (is_dots (getstr t)) (open_ranges getstr atoi len [])
        (ranges getstr atoi len (t ∷ [])) value_defined (ranges-IsDefined (t ∷ []))
  all_ranges-IsDefined (t ∷ u ∷ subs) =
      if-IsDefined (is_dots (getstr t)) (open_ranges getstr atoi len (u ∷ subs))
        (ranges getstr atoi len (t ∷ u ∷ subs))
        (upto-IsDefined 1 u (ranges getstr atoi len subs) (ranges-IsDefined subs))
        (ranges-IsDefined (t ∷ u ∷ subs))

select-IsDefined {ℓ} :
    {A : Type ℓ} (xs before : List A) (o : Outcome (List (ℕ × ℕ)))
    → IsDefined o
    → IsDefined (select xs before o)
unfolding select
select-IsDefined xs before o value_defined = value_defined
select-IsDefined xs before o failed_defined = failed_defined

-- For every list and subscripts, `subscript` returns a list or fails with the message on a bad subscript, and never uses the NULL pointer at the end of the list.
pub subscript-IsDefined {ℓ} :
    {A : Type ℓ} {T : Type 0} (getstr : T → Str) (atoi : Str → ℤ) (xs : List A) (subs : List T)
    → IsDefined (subscript getstr atoi xs subs)
subscript-IsDefined getstr atoi xs subs =
    subst IsDefined (sym (subscript-select getstr atoi xs subs)) (
      select-IsDefined xs [] (all_ranges getstr atoi (length xs) subs)
        (all_ranges-IsDefined getstr atoi (length xs) subs))
