-- ===== src/Status/Exit.antt =====
-- The exit status of a list against its truth.
use desh.Common.{
  ◌≤◌, ◌≡◌, refl, sym, ◌∙◌, subst, true, List, [], ◌∷◌, ◌==◌, if◌then◌else◌, Str, Bool-cases, inl,
  inr, arith, ==_iff,
}
use desh.Glom.Terms.{ℤ, Term}
use desh.Status.{istrue, exit_value, exitstatus}

exit_value-bound : (r : ℤ × Str) → exit_value r ≤ 255
exit_value-bound (ℤ.pos n, []) = ground arith
exit_value-bound (ℤ.pos n, c ∷ s) = omega arith
exit_value-bound (ℤ.negsuc n, []) = omega arith
exit_value-bound (ℤ.negsuc n, c ∷ s) = omega arith

module _ {B : Type 0} where
  many :
      (strtol : Str → ℤ × Str) (t u : Term B) (status : List (Term B))
      → exitstatus strtol (t ∷ u ∷ status) ≡ (if istrue (t ∷ u ∷ status) then 0 else 1)
  unfolding exitstatus
  many strtol (Term.text s) u status = refl
  many strtol (Term.closure t b) u status = refl

  -- The exit status of a list is at most 255, whatever `strtol` reads.
  pub exitstatus-bound :
      (strtol : Str → ℤ × Str) (status : List (Term B)) → exitstatus strtol status ≤ 255
  unfolding exitstatus
  exitstatus-bound strtol [] = omega arith
  exitstatus-bound strtol (Term.closure t b ∷ []) = omega arith
  exitstatus-bound strtol (Term.text [] ∷ []) = omega arith
  exitstatus-bound strtol (Term.text (c ∷ s) ∷ []) = exit_value-bound (strtol (c ∷ s))
  exitstatus-bound strtol (t ∷ u ∷ status) = elim (Bool-cases (istrue (t ∷ u ∷ status))) [
    | inl e ↦ subst (λ n. n ≤ 255) (sym (many strtol t u status ∙ rw e refl)) zero_bound
    | inr e ↦ subst (λ n. n ≤ 255) (sym (many strtol t u status ∙ rw e refl)) one_bound
  ]
    where
      zero_bound : 0 ≤ 255
      zero_bound = omega arith

      one_bound : 1 ≤ 255
      one_bound = omega arith

  -- If `strtol` reads "0" as the number 0 with nothing behind it, the exit status of a list that is true is 0.
  pub istrue-exitstatus :
      (strtol : Str → ℤ × Str) (status : List (Term B))
      → strtol (b'0' ∷ []) ≡ (ℤ.pos 0, [])
      → istrue status ≡ true
      → exitstatus strtol status ≡ 0
  unfolding exitstatus istrue
  istrue-exitstatus strtol [] z h = refl
  istrue-exitstatus strtol (Term.closure t b ∷ []) z h = ground arith
  istrue-exitstatus strtol (Term.text [] ∷ []) z h = refl
  istrue-exitstatus strtol (Term.text (c ∷ []) ∷ []) z h = elim (Bool-cases (c == b'0')) [
    | inl e ↦ rw ((==_iff c b'0').0 e, z) refl
    | inr e ↦ ground arith
  ]
  istrue-exitstatus strtol (Term.text (c ∷ d ∷ s) ∷ []) z h = ground arith
  istrue-exitstatus strtol (t ∷ u ∷ status) z h = many strtol t u status ∙ rw h refl
