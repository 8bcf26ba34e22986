-- ===== src/Fd/Tests.antt =====
-- Runs of the operations on descriptors, and the theorems at concrete inputs.
use desh.Common.{
  ℕ, zero, suc, Bool, true, false, ◌&&◌, ◌||◌, not, none, some, List, [], ◌∷◌, ◌++◌, ◌==◌,
  if◌then◌else◌, length, get_or, set, ◌≡◌, refl, arith, sym, ap, ◌∙◌,
}
use desh.Fd.State.{
  Dup, dup_ok, dup_ebadf, dup_error, Kernel, Cell, Reserve, Defer, FdState, deferred, Effect, done,
  and_then,
}
use desh.Fd.Deferred.{fdmap, remapfds, pushdefer, undefer, close_real}
use desh.Fd.Newfd.{newfd, new_fd}
use desh.Fd.Fresh.{IsKernel, IsFresh, newfd-IsFresh}
use desh.Fd.Count.{count}
use desh.Fd.Room.{AllListed}
use desh.Fd.Undo.{undefer-pushdefer}

-- A table of files, where 0 is a closed descriptor, and the lowest one that is closed.
abbrev free_from : ℕ → List ℕ → ℕ
free_from i [] = i
free_from i (f ∷ fs) = let rest = free_from (suc i) fs in if f == 0 then i else rest

abbrev put : ℕ → ℕ → List ℕ → List ℕ
put i f fs = if length fs == i then fs ++ f ∷ [] else set fs i f

abbrev files : Kernel (List ℕ)
files = record {
  dup = λ i fs.
      if get_or fs i 0 == 0
      then dup_ebadf
      else dup_ok (free_from 0 fs) (put (free_from 0 fs) (get_or fs i 0) fs);
  dup2 = λ i j fs. if get_or fs i 0 == 0 then none else some (put j (get_or fs i 0) fs);
  close = λ i fs. set fs i 0;
}

-- `>[4] a {<[6] b …}`: the file 13 at 3 is for 4, and the file 14 at 4 is for 6.
abbrev two_deferred : List Defer
two_deferred = record { realfd = some 4; userfd = 6 } ∷ record { realfd = some 3; userfd = 4 } ∷ []

abbrev two_files : FdState (List ℕ)
two_files = record {
  deftab = two_deferred;
  defmax = 10;
  reserved =
      record { fdp = deferred 0; closeonfork = true }
      ∷ record { fdp = deferred 1; closeonfork = true }
      ∷ [];
  variables = [];
  kernel = 10 ∷ 11 ∷ 12 ∷ 13 ∷ 14 ∷ 0 ∷ 0 ∷ [];
}

abbrev kernel_of : {K A : Type 0} → Effect K A → K → K
kernel_of (done a st) k = st.kernel
kernel_of (Effect.failed st) k = k
kernel_of Effect.assert_failed k = k

-- `fdmap` takes 6 to the file 13, but `remapfds` puts the file 14 there.
fdmap_test : fdmap two_deferred 6 ≡ some 3
unfolding fdmap
fdmap_test = refl

remapfds_test : kernel_of (remapfds files two_files) [] ≡ 10 ∷ 11 ∷ 12 ∷ 0 ∷ 13 ∷ 0 ∷ 14 ∷ []
unfolding remapfds
remapfds_test = refl

newfd_test :
    newfd files 3 two_deferred (10 ∷ 11 ∷ 12 ∷ 13 ∷ 0 ∷ [])
    ≡ new_fd 5 (10 ∷ 11 ∷ 12 ∷ 13 ∷ 0 ∷ 0 ∷ [])
unfolding newfd
newfd_test = refl

-- Open descriptors, with a new one at the end for each copy.
abbrev growing_dup : Bool → List Bool → Dup (List Bool)
growing_dup true fs = dup_ok (length fs) (fs ++ true ∷ [])
growing_dup false fs = dup_ebadf

abbrev growing : Kernel (List Bool)
growing = record {
  dup = λ i fs. growing_dup (get_or fs i false) fs;
  dup2 = λ i j fs. none;
  close = λ i fs. set fs i false;
}

abbrev is_open : List Bool → ℕ → Bool
is_open fs i = get_or fs i false

open_end : (fs : List Bool) → is_open fs (length fs) ≡ false
open_end [] = refl
open_end (f ∷ fs) = open_end fs

open_more :
    (fs : List Bool) (j : ℕ) → is_open (fs ++ true ∷ []) j ≡ ((j == length fs) || is_open fs j)
open_more [] zero = refl
open_more [] (suc j) = ground arith
open_more (f ∷ fs) zero = ground arith
open_more (f ∷ fs) (suc j) = ground (arith, open_more fs j)

open_set : (fs : List Bool) (n j : ℕ) → is_open (set fs n false) j ≡ (not (j == n) && is_open fs j)
open_set [] n j = ground arith
open_set (f ∷ fs) zero zero = refl
open_set (f ∷ fs) zero (suc j) = ground arith
open_set (f ∷ fs) (suc n) zero = ground arith
open_set (f ∷ fs) (suc n) (suc j) = ground (arith, open_set fs n j)

abbrev dup_fd : {K : Type 0} → Dup K → ℕ
dup_fd (dup_ok n k) = n
dup_fd dup_ebadf = 0
dup_fd dup_error = 0

abbrev dup_kernel : {K : Type 0} → K → Dup K → K
dup_kernel k (dup_ok n k') = k'
dup_kernel k dup_ebadf = k
dup_kernel k dup_error = k

abbrev is_ok : {K : Type 0} → Dup K → Bool
is_ok (dup_ok n k') = true
is_ok dup_ebadf = false
is_ok dup_error = false

no_confusion : false ≡ true → ⊥
no_confusion h = ground arith

growing_free :
    (b : Bool) (n : ℕ) (fs fs' : List Bool)
    → growing_dup b fs ≡ dup_ok n fs'
    → (is_open fs n ≡ false) × ((j : ℕ) → is_open fs' j ≡ ((j == n) || is_open fs j))
growing_free true n fs fs' e = (
  ap (is_open fs) (sym (ap dup_fd e)) ∙ open_end fs,
  λ j.
      ap (λ gs. is_open gs j) (sym (ap (dup_kernel fs) e))
      ∙ open_more fs j
      ∙ ap (λ m. (j == m) || is_open fs j) (ap dup_fd e),
)
growing_free false n fs fs' e = absurd (no_confusion (ap is_ok e))

growing_closed : (b : Bool) (fs : List Bool) → growing_dup b fs ≡ dup_ebadf → b ≡ false
growing_closed true fs e = ap is_ok e
growing_closed false fs e = refl

growing-IsKernel : IsKernel growing is_open
growing-IsKernel = record {
  dup_free = λ i n fs fs' e. growing_free (get_or fs i false) n fs fs' e;
  dup_closed = λ i fs e. growing_closed (get_or fs i false) fs e;
  close_one = λ n fs j. open_set fs n j;
}

newfd-IsFresh_example :
    IsFresh growing is_open growing-IsKernel two_deferred
      (true ∷ true ∷ true ∷ true ∷ [])
      (newfd growing 3 two_deferred (true ∷ true ∷ true ∷ true ∷ []))
newfd-IsFresh_example =
    newfd-IsFresh growing is_open growing-IsKernel two_deferred (true ∷ true ∷ true ∷ true ∷ [])

-- The third operation on a table for two registers the first two again.
pushdefer_grows :
    kernel_of
      (and_then
        (pushdefer files true (some 5) 7 (record two_files { defmax = 2 }))
        (λ ticket st'. undefer files ticket st'))
      []
    ≡ 10 ∷ 11 ∷ 12 ∷ 13 ∷ 14 ∷ 0 ∷ 0 ∷ []
unfolding pushdefer undefer
pushdefer_grows = refl

-- The memory of the two operations is full.
abbrev full : FdState (List ℕ)
full = record two_files { defmax = 2 }

full-AllListed : AllListed full
unfolding AllListed
full-AllListed zero h = refl
full-AllListed (suc zero) h = refl
full-AllListed (suc (suc j)) h = absurd (omega arith)

undefer-pushdefer_example :
    (rs : List Reserve) × (m : ℕ) × (and_then
        (pushdefer files true (some 5) 7 full)
        (λ ticket st'. undefer files ticket st')
      ≡ done tt (close_real files (some 5) (record full { reserved = rs; defmax = m })))
    × ((q : Cell) → count q rs ≡ count q full.reserved)
undefer-pushdefer_example = undefer-pushdefer files (some 5) 7 full full-AllListed refl
