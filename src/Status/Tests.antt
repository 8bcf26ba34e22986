-- ===== src/Status/Tests.antt =====
-- Runs of the status functions, and the theorems at concrete inputs.
use desh.Common.{ℕ, ◌≤◌, ◌≡◌, refl, true, List, [], ◌∷◌, Str, codes, ◌-◌}
use desh.Glom.Terms.{ℤ, Term}
use desh.Status.{istrue, exitstatus}
use desh.Status.Exit.{exitstatus-bound, istrue-exitstatus}

-- `strtol` on one digit; it reads nothing else.
abbrev one_digit : Str → ℤ × Str
one_digit (c ∷ []) = (ℤ.pos (c - 48), [])
one_digit s = (ℤ.pos 0, s)

abbrev statuses : List (Term ℕ)
statuses = Term.text (codes "0") ∷ Term.text [] ∷ []

abbrev seven : List (Term ℕ)
seven = Term.text (codes "7") ∷ []

exitstatus_reads : exitstatus one_digit seven ≡ 7
unfolding exitstatus
exitstatus_reads = refl

exitstatus-bound_example : exitstatus one_digit statuses ≤ 255
exitstatus-bound_example = exitstatus-bound one_digit statuses

statuses_hold : istrue statuses ≡ true
unfolding istrue
statuses_hold = refl

istrue-exitstatus_example : exitstatus one_digit statuses ≡ 0
istrue-exitstatus_example = istrue-exitstatus one_digit statuses refl statuses_hold
