-- ===== src/Fd/Undo.antt =====
-- src/fd.c: a deferred operation and its ticket.
use desh.Common.{
  ℕ, Bool, true, false, Option, some, List, [], ◌∷◌, ◌++◌, ◌==◌, length, ◌≡◌, refl, ◌∙◌, arith,
}
use desh.Fd.Count.{count, none-is_reserved}
use desh.Fd.Room.{AllListed, make_room_lem}
use desh.Fd.State.{
  Kernel, Cell, deferred, cell_eq, Reserve, FdState, done, and_then, is_reserved, registerfd,
}
use desh.Fd.Deferred.{remove_reserved, unregisterfd, push_entry, pushdefer, undefer, close_real}

same_self : (n : ℕ) → (n == n) ≡ true
same_self n = ground arith

-- What was registered last is removed again.
remove_reserved-last :
    (p : Cell) (b : Bool) (rs : List Reserve)
    → is_reserved p rs ≡ false
    → cell_eq p p ≡ true
    → remove_reserved p (rs ++ record { fdp = p; closeonfork = b } ∷ []) ≡ some rs
unfolding remove_reserved is_reserved
remove_reserved-last p b [] h s = rw s refl
remove_reserved-last p b (r ∷ rs) h s = rw other (rw (remove_reserved-last p b rs rest s) refl)
  where
    other : cell_eq r.fdp p ≡ false
    other = ground arith

    rest : is_reserved p rs ≡ false
    rest = ground arith

module _ {K : Type 0} (os : Kernel K) where
  undefer-push_entry :
      (realfd : Option ℕ) (userfd : ℕ) (st : FdState K)
      → is_reserved (deferred (length st.deftab)) st.reserved ≡ false
      → and_then (push_entry os realfd userfd st) (λ ticket st'. undefer os ticket st')
        ≡ done tt (close_real os realfd st)
  unfolding undefer registerfd unregisterfd
  undefer-push_entry realfd userfd st h = rw h (
      rw (same_self (length st.deftab)) (
        rw
          (
            remove_reserved-last (deferred (length st.deftab)) true st.reserved h (same_self _),
            and_then,
            unregisterfd,
          )
          refl))

  -- In the parent shell, if each entry of the stack is on the list of reserved descriptors once and the next entry is not on it, `undefer` on the ticket of an operation takes it back, also if the memory of the stack grows: the stack and the variables are as before, the list has the same pointers, each as often as before, and the descriptor that was to be moved is closed.
  pub undefer-pushdefer :
      (realfd : Option ℕ) (userfd : ℕ) (st : FdState K)
      → AllListed st
      → count (deferred (length st.deftab)) st.reserved ≡ 0
      → (rs : List Reserve) × (m : ℕ) × (and_then
            (pushdefer os true realfd userfd st)
            (λ ticket st'. undefer os ticket st')
          ≡ done tt (close_real os realfd (record st { reserved = rs; defmax = m })))
        × ((q : Cell) → count q rs ≡ count q st.reserved)
  unfolding pushdefer
  undefer-pushdefer realfd userfd st all new =
      let (rs, m, e, same) = make_room_lem os st all in
      let next = deferred (length st.deftab) in
      (
        rs,
        m,
        rw e (
            undefer-push_entry realfd userfd (record st { reserved = rs; defmax = m })
              (none-is_reserved next rs (same next ∙ new))),
        same,
      )
