-- ===== src/Status.antt =====
-- src/status.c: `istrue` and `exitstatus`.
pub mod Exit
mod Tests
use desh.Common.{
  ℕ, Bool, true, false, Option, none, some, List, [], ◌∷◌, ◌==◌, ltb, if◌then◌else◌, Str,
}
use desh.Glom.Terms.{ℤ, pos, negsuc, Term, text, closure}

-- The string is empty or "0": `*str != '\0' && (*str != '0' || str[1] != '\0')` does not hold.
abbrev pub is_zero : Str → Bool
is_zero [] = true
is_zero (c ∷ []) = c == b'0'
is_zero (c ∷ d ∷ s) = false

-- `*s != '\0' || n > 255`, where `n` is unsigned, so that a negative number is above 255.
abbrev pub exit_value : ℤ × Str → ℕ
exit_value (ℤ.pos n, []) = if ltb 255 n then 1 else n
exit_value (ℤ.negsuc n, []) = 1
exit_value (z, c ∷ s) = 1

module _ {B : Type 0} where
  unfoldable pub istrue : List (Term B) → Bool
  istrue [] = true
  istrue (Term.closure t b ∷ status) = false
  istrue (Term.text s ∷ status) = if is_zero s then istrue status else false

  -- `strtol` of the C library: the number at the start of a string, and the rest.
  unfoldable pub exitstatus : (Str → ℤ × Str) → List (Term B) → ℕ
  unfolding istrue
  exitstatus strtol [] = 0
  exitstatus strtol (t ∷ u ∷ status) = if istrue (t ∷ u ∷ status) then 0 else 1
  exitstatus strtol (Term.closure t b ∷ []) = 1
  exitstatus strtol (Term.text [] ∷ []) = 0
  exitstatus strtol (Term.text (c ∷ s) ∷ []) = exit_value (strtol (c ∷ s))
