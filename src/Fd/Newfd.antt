-- ===== src/Fd/Newfd.antt =====
-- src/fd.c: `newfd`, with fuel for its loop and for its calls of itself.
use desh.Common.{ℕ, zero, suc, true, false, Option, none, some, List, if◌then◌else◌, length}
use desh.Fd.State.{Dup, dup_ok, dup_ebadf, dup_error, Kernel, Defer}
use desh.Fd.Deferred.{isdeferred}

-- The first descriptor from `i` on that no deferred operation is for.
unfoldable pub undeferred_from : ℕ → ℕ → List Defer → Option ℕ
unfolding isdeferred
undeferred_from zero i ds = none
undeferred_from (suc n) i ds =
    let rest = undeferred_from n (suc i) ds in if isdeferred i ds then rest else some i

pub data NewFd (K : Type 0) : Type 0 where
  new_fd : ℕ → K → NewFd K
  newfd_failed : K → NewFd K
  out_of_fuel : NewFd K

module _ {K : Type 0} (os : Kernel K) where
  -- `close(fd); return n`
  abbrev pub close_behind : ℕ → NewFd K → NewFd K
  close_behind m (new_fd n k) = new_fd n (os.close m k)
  close_behind m (newfd_failed k) = newfd_failed k
  close_behind m out_of_fuel = out_of_fuel

  -- Behind `dup(i)`, with what the call of `newfd` gives.
  abbrev pub behind_dup : ℕ → List Defer → K → Dup K → (K → NewFd K) → NewFd K
  behind_dup i ds k dup_ebadf again = new_fd i k
  behind_dup i ds k dup_error again = newfd_failed k
  behind_dup i ds k (dup_ok n k') again = elim (isdeferred n ds) [
    | true ↦ close_behind n (again k')
    | false ↦ new_fd n (os.close n k')
  ]

  abbrev pub behind_loop : List Defer → K → Option ℕ → (K → NewFd K) → NewFd K
  behind_loop ds k none again = out_of_fuel
  behind_loop ds k (some i) again = behind_dup i ds k (os.dup i k) again

  unfoldable pub newfd : ℕ → List Defer → K → NewFd K
  unfolding undeferred_from isdeferred
  newfd zero ds k = out_of_fuel
  newfd (suc n) ds k =
      behind_loop ds k (undeferred_from (suc (length ds)) 3 ds) (λ k'. newfd n ds k')
