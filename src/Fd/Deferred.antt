-- ===== src/Fd/Deferred.antt =====
-- src/fd.c: the operations on descriptors.
use desh.Common.{
  ℕ, zero, suc, Bool, true, false, ◌||◌, Option, none, some, List, [], ◌∷◌, ◌==◌, leb, ◌+◌,
  if◌then◌else◌, length,
}
use desh.Fd.State.{
  dup_ok, dup_ebadf, dup_error, Kernel, Defer, Cell, deferred, cell_eq, Reserve, FdState, Effect,
  done, failed, assert_failed, and_then, read_cell, write_cell, registerfd, defer_at,
}

-- `reserved[i] = reserved[--rescount]`, at the first entry
abbrev pub last_first : List Reserve → List Reserve
last_first [] = []
last_first (r ∷ []) = r ∷ []
last_first (r ∷ s ∷ rs) = elim (last_first (s ∷ rs)) [ [] ↦ r ∷ [] | ◌∷◌ l ls ↦ l ∷ r ∷ ls ]

unfoldable pub remove_reserved : Cell → List Reserve → Option (List Reserve)
remove_reserved p [] = none
remove_reserved p (r ∷ rs) =
    let rest = remove_reserved p rs in
    if cell_eq r.fdp p
    then some (last_first rs)
    else elim rest [ none ↦ none | some qs ↦ some (r ∷ qs) ]

abbrev pub same_fd : ℕ → Option ℕ → Bool
same_fd n none = false
same_fd n (some m) = m == n

-- The loop of `isdeferred`.
unfoldable pub isdeferred : ℕ → List Defer → Bool
isdeferred n [] = false
isdeferred n (d ∷ ds) = (d.userfd == n) || isdeferred n ds

-- `fdmap`, from the last operation on
unfoldable pub fdmap : List Defer → ℕ → Option ℕ
fdmap [] n = some n
fdmap (d ∷ ds) n =
    let same = fdmap ds n in
    if n == d.userfd then elim d.realfd [ none ↦ none | some r ↦ fdmap ds r ] else same

module _ {K : Type 0} (os : Kernel K) where
  abbrev pub close_fd : ℕ → FdState K → FdState K
  close_fd n st = record st { kernel = os.close n st.kernel }

  -- `if (fd != -1) close(fd)`
  abbrev pub close_real : Option ℕ → FdState K → FdState K
  close_real none st = st
  close_real (some n) st = close_fd n st

  unfoldable pub unregisterfd : Cell → FdState K → Effect K Unit
  unfolding remove_reserved
  unregisterfd p st = elim (remove_reserved p st.reserved) [
    | none ↦ assert_failed
    | some rs ↦ done tt (record st { reserved = rs })
  ]

  unfoldable pub mvfd : ℕ → ℕ → FdState K → Effect K Unit
  mvfd oldfd newfd st =
      if oldfd == newfd then done tt st else elim (os.dup2 oldfd newfd st.kernel) [
        | none ↦ failed st
        | some k ↦ done tt (close_fd oldfd (record st { kernel = k }))
      ]

  -- The loop of `releasefd`.
  unfoldable pub release_each : ℕ → List Reserve → FdState K → Effect K Unit
  unfolding read_cell write_cell
  release_each n [] st = done tt st
  release_each n (r ∷ rs) st = elim (same_fd n (read_cell r.fdp st)) [
    | false ↦ release_each n rs st
    | true ↦ elim (os.dup n st.kernel) [
      | dup_ok m k ↦
          release_each n rs (close_fd n (write_cell r.fdp (some m) (record st { kernel = k })))
      | dup_ebadf ↦ assert_failed
      | dup_error ↦ failed (write_cell r.fdp none st)
    ]
  ]

  unfoldable pub releasefd : ℕ → FdState K → Effect K Unit
  unfolding release_each
  releasefd n st = release_each n st.reserved st

  -- The end of `dodeferred`.
  abbrev pub put_real : Option ℕ → ℕ → FdState K → Effect K Unit
  put_real none userfd st = done tt (close_fd userfd st)
  put_real (some r) userfd st = mvfd r userfd st

  unfoldable pub dodeferred : Option ℕ → ℕ → FdState K → Effect K Unit
  unfolding releasefd mvfd
  dodeferred realfd userfd st = and_then (releasefd userfd st) (λ u st'. put_real realfd userfd st')

  -- The two loops that take the pointers into the stack off the list and put them back, from entry
  -- `i` on.
  unfoldable pub unregister_each : ℕ → ℕ → FdState K → Effect K Unit
  unfolding unregisterfd
  unregister_each zero i st = done tt st
  unregister_each (suc n) i st =
      and_then (unregisterfd (deferred i) st) (λ u st'. unregister_each n (suc i) st')

  unfoldable pub register_each : ℕ → ℕ → FdState K → Effect K Unit
  unfolding registerfd
  register_each zero i st = done tt st
  register_each (suc n) i st =
      and_then (registerfd (deferred i) true st) (λ u st'. register_each n (suc i) st')

  -- `if (defcount >= defmax)`
  unfoldable pub make_room : FdState K → Effect K Unit
  unfolding unregister_each register_each
  make_room st =
      if leb st.defmax (length st.deftab)
      then and_then (unregister_each (length st.deftab) 0 st)
          (λ u st'. register_each (length st.deftab) 0 (record st' { defmax = st'.defmax + 10 }))
      else done tt st

  -- The new entry at the top of the stack, and its ticket.
  abbrev pub push_entry : Option ℕ → ℕ → FdState K → Effect K (Option ℕ)
  push_entry realfd userfd st =
      and_then
        (registerfd (deferred (length st.deftab)) true
          (record st { deftab = record { realfd = realfd; userfd = userfd } ∷ st.deftab }))
        (λ u st'. done (some (length st.deftab)) st')

  -- The ticket is `none` where the code returns UNREGISTERED.
  unfoldable pub pushdefer : Bool → Option ℕ → ℕ → FdState K → Effect K (Option ℕ)
  unfolding make_room registerfd dodeferred
  pushdefer parent realfd userfd st =
      if parent
      then and_then (make_room st) (λ u st'. push_entry realfd userfd st')
      else and_then (dodeferred realfd userfd st) (λ u st'. done none st')

  unfoldable pub defer_mvfd : Bool → ℕ → ℕ → FdState K → Effect K (Option ℕ)
  unfolding pushdefer
  defer_mvfd parent oldfd newfd st = pushdefer parent (some oldfd) newfd st

  unfoldable pub defer_close : Bool → ℕ → FdState K → Effect K (Option ℕ)
  unfolding pushdefer
  defer_close parent n st = pushdefer parent none n st

  -- Behind the test of the ticket, with the stack.
  abbrev pub pop_defer : ℕ → List Defer → FdState K → Effect K Unit
  pop_defer ticket [] st = assert_failed
  pop_defer ticket (d ∷ ds) st =
      if ticket == length ds
      then and_then (unregisterfd (deferred (length ds)) (record st { deftab = ds }))
          (λ u st'. done tt (close_real d.realfd st'))
      else assert_failed

  unfoldable pub undefer : Option ℕ → FdState K → Effect K Unit
  unfolding unregisterfd
  undefer none st = done tt st
  undefer (some ticket) st = pop_defer ticket st.deftab st

  -- `n` rounds of the loop of `remapfds`, from entry `i` on.
  unfoldable pub remap_from : ℕ → ℕ → FdState K → Effect K Unit
  unfolding unregisterfd dodeferred defer_at
  remap_from zero i st = done tt (record st { deftab = [] })
  remap_from (suc n) i st = and_then (unregisterfd (deferred i) st) (λ u st'.
      elim (defer_at i st'.deftab) [
        | none ↦ assert_failed
        | some d ↦ and_then (dodeferred d.realfd d.userfd st') (λ v st''. remap_from n (suc i) st'')
      ])

  unfoldable pub remapfds : FdState K → Effect K Unit
  unfolding remap_from
  remapfds st = remap_from (length st.deftab) 0 st

  -- `if (fd >= 3) close(fd)`
  abbrev pub close_high : Option ℕ → FdState K → FdState K
  close_high none st = st
  close_high (some n) st = if leb 3 n then close_fd n st else st

  -- The loop of `closefds`.
  unfoldable pub close_each : List Reserve → FdState K → FdState K
  unfolding read_cell write_cell
  close_each [] st = st
  close_each (r ∷ rs) st =
      close_each rs
        (if r.closeonfork then write_cell r.fdp none (close_high (read_cell r.fdp st) st) else st)

  unfoldable pub closefds : FdState K → Effect K Unit
  unfolding remapfds close_each
  closefds st = and_then (remapfds st) (λ u st'. done tt (close_each st'.reserved st'))
