-- ===== src/Common/Text.antt =====
-- C strings: the bytes up to the terminating NUL, which the list leaves out. Reading the byte
-- behind the last one gives 0.
use Prim.Native.Nat.{ℕ}
use Prim.Native.Char.{code}
use Prim.Native.String.{String}
use mathlib.Core.Path.{◌≡◌, refl}
use mathlib.Core.Bool.{Bool, true, false, ◌&&◌}
use mathlib.Core.Logic.{◌↔◌}
use mathlib.Core.List.{List, [], ◌∷◌}
use native.Mathlib.Omega.{arith}
use desh.Common.Tests.{◌==◌}
use desh.Common.Lists.{get_or}

abbrev pub Str : Type 0
Str = List ℕ

-- The code points of a text: its bytes, if it is ASCII.
abbrev pub codes : String → Str
codes String.[] = []
codes (String.◌∷◌ c s) = code c ∷ codes s

-- `s[i]`
abbrev pub char_at : Str → ℕ → ℕ
char_at s i = get_or s i 0

-- `streq`
abbrev pub streq : Str → Str → Bool
streq [] [] = true
streq [] (y ∷ ys) = false
streq (x ∷ xs) [] = false
streq (x ∷ xs) (y ∷ ys) = (x == y) && streq xs ys

pub streq→eq : (s t : Str) → streq s t ≡ true → s ≡ t
streq→eq [] [] h = refl
streq→eq [] (y ∷ ys) h = ground arith
streq→eq (x ∷ xs) [] h = ground arith
streq→eq (x ∷ xs) (y ∷ ys) h = ground (arith, streq→eq xs ys)

pub streq_refl : (s : Str) → streq s s ≡ true
streq_refl [] = refl
streq_refl (x ∷ xs) = ground (arith, streq_refl xs)

pub streq_iff : (s t : Str) → (streq s t ≡ true) ↔ (s ≡ t)
streq_iff s t = (streq→eq s t, λ e. subst_streq e)
  where
    subst_streq : s ≡ t → streq s t ≡ true
    subst_streq e = rw (← e) (streq_refl s)

pub streq_comm : (s t : Str) → streq s t ≡ streq t s
streq_comm [] [] = refl
streq_comm [] (y ∷ t) = refl
streq_comm (x ∷ s) [] = refl
streq_comm (x ∷ s) (y ∷ t) = ground (arith, streq_comm s t)
