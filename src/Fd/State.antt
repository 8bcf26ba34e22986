-- ===== src/Fd/State.antt =====
-- src/fd.c: the stack of deferred operations and the list of reserved descriptors. A descriptor
-- that is -1 is `none`. A pointer to a descriptor is a `Cell`: an entry of the stack, counted from
-- its bottom, or a variable of another file. The growth of the table of reserved
-- descriptors has no counterpart.
use desh.Common.{
  ℕ, Bool, false, ◌||◌, Option, none, some, List, [], ◌∷◌, ◌++◌, ◌==◌, if◌then◌else◌, length,
  get_or, set,
}

-- Calls of the operating system.
pub data Dup (K : Type 0) : Type 0 where
  dup_ok : ℕ → K → Dup K
  dup_ebadf : Dup K
  dup_error : Dup K

pub record Kernel (K : Type 0) : Type 0 where
  pub dup : ℕ → K → Dup K
  pub dup2 : ℕ → ℕ → K → Option K
  pub close : ℕ → K → K

pub record Defer : Type 0 where
  pub realfd : Option ℕ
  pub userfd : ℕ

pub data Cell : Type 0 where
  deferred variable : ℕ → Cell

abbrev pub cell_eq : Cell → Cell → Bool
cell_eq (deferred i) (deferred j) = i == j
cell_eq (deferred i) (variable j) = false
cell_eq (variable i) (deferred j) = false
cell_eq (variable i) (variable j) = i == j

pub record Reserve : Type 0 where
  pub fdp : Cell
  pub closeonfork : Bool

-- `deftab` has the last operation first; `defmax` is the size of its memory.
pub record FdState (K : Type 0) : Type 0 where
  pub deftab : List Defer
  pub defmax : ℕ
  pub reserved : List Reserve
  pub variables : List (Option ℕ)
  pub kernel : K

-- What a call does: a value and a state, an exception, or an assertion that fails.
pub data Effect (K A : Type 0) : Type 0 where
  done : A → FdState K → Effect K A
  failed : FdState K → Effect K A
  assert_failed : Effect K A

-- `;` between two calls
abbrev pub and_then : {K A B : Type 0} → Effect K A → (A → FdState K → Effect K B) → Effect K B
and_then (done a st) f = f a st
and_then (failed st) f = failed st
and_then assert_failed f = assert_failed

-- The entry `i` of the stack.
unfoldable pub defer_at : ℕ → List Defer → Option Defer
defer_at i [] = none
defer_at i (d ∷ ds) = let below = defer_at i ds in if length ds == i then some d else below

unfoldable pub set_defer : ℕ → Option ℕ → List Defer → List Defer
set_defer i v [] = []
set_defer i v (d ∷ ds) =
    let below = set_defer i v ds in
    if length ds == i then record d { realfd = v } ∷ ds else d ∷ below

abbrev pub real_of : Option Defer → Option ℕ
real_of none = none
real_of (some d) = d.realfd

-- Whether a pointer is on the list.
unfoldable pub is_reserved : Cell → List Reserve → Bool
is_reserved p [] = false
is_reserved p (r ∷ rs) = cell_eq r.fdp p || is_reserved p rs

module _ {K : Type 0} where
  -- `*fdp`
  unfoldable pub read_cell : Cell → FdState K → Option ℕ
  unfolding defer_at
  read_cell (deferred i) st = real_of (defer_at i st.deftab)
  read_cell (variable j) st = get_or st.variables j none

  -- `*fdp = v`
  unfoldable pub write_cell : Cell → Option ℕ → FdState K → FdState K
  unfolding set_defer
  write_cell (deferred i) v st = record st { deftab = set_defer i v st.deftab }
  write_cell (variable j) v st = record st { variables = set st.variables j v }

  unfoldable pub registerfd : Cell → Bool → FdState K → Effect K Unit
  unfolding is_reserved
  registerfd p closeonfork st =
      if is_reserved p st.reserved
      then assert_failed
      else done tt (record st {
        reserved = st.reserved ++ record { fdp = p; closeonfork = closeonfork } ∷ [];
      })
