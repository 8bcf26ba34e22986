-- ===== src/Fd/Fresh.antt =====
-- src/fd.c: `newfd` comes to an end, with a free descriptor.
use desh.Common.{
  ℕ, zero, suc, ◌+◌, ◌≤◌, ◌<◌, Bool, true, false, ◌&&◌, ◌||◌, not, some, List, [], ◌∷◌, ◌==◌, leb,
  if◌then◌else◌, length, ◌≡◌, refl, arith, Bool-cases, inl, inr, ap, sym, ◌∙◌,
}
use desh.Fd.State.{Dup, dup_ok, dup_ebadf, dup_error, Kernel, Defer}
use desh.Fd.Deferred.{isdeferred}
use desh.Fd.Newfd.{
  undeferred_from, NewFd, new_fd, newfd_failed, out_of_fuel, close_behind, behind_dup, newfd,
}

-- How many deferred operations are for a descriptor with `p`.
count : (ℕ → Bool) → List Defer → ℕ
count p [] = 0
count p (d ∷ ds) = (if p d.userfd then 1 else 0) + count p ds

count-length : (p : ℕ → Bool) (ds : List Defer) → count p ds ≤ length ds
unfolding count
count-length p [] = omega arith
count-length p (d ∷ ds) = ground (arith, count-length p ds)

count_le :
    (p q : ℕ → Bool) (ds : List Defer)
    → ((j : ℕ) → q j ≡ true → p j ≡ true)
    → count q ds ≤ count p ds
unfolding count
count_le p q [] h = omega arith
count_le p q (d ∷ ds) h = ground (arith, count_le p q ds h, h d.userfd)

-- A test that holds for fewer of the descriptors, one of them deferred.
count_lt :
    (p q : ℕ → Bool) (n : ℕ) (ds : List Defer)
    → ((j : ℕ) → q j ≡ true → p j ≡ true)
    → isdeferred n ds ≡ true
    → p n ≡ true
    → q n ≡ false
    → count q ds < count p ds
unfolding count isdeferred
count_lt p q n [] h i a b = absurd (ground arith)
count_lt p q n (d ∷ ds) h i a b = elim (Bool-cases (d.userfd == n)) [
  | inl e ↦ rw (at_p e) (rw (at_q e) (omega (arith, count_le p q ds h)))
  | inr e ↦ ground (arith, count_lt p q n ds h (below e) a b, h d.userfd)
]
  where
    equal : (d.userfd == n) ≡ true → d.userfd ≡ n
    equal e = ground arith

    at_p : (d.userfd == n) ≡ true → p d.userfd ≡ true
    at_p e = ap p (equal e) ∙ a

    at_q : (d.userfd == n) ≡ true → q d.userfd ≡ false
    at_q e = ap q (equal e) ∙ b

    below : (d.userfd == n) ≡ false → isdeferred n ds ≡ true
    below e = ground arith

-- From `i` on, there is a descriptor that is not deferred, before the fuel is gone.
undeferred_from-isdeferred :
    (n i : ℕ) (ds : List Defer)
    → count (leb i) ds < n
    → (j : ℕ) × (undeferred_from n i ds ≡ some j) × (isdeferred j ds ≡ false)
unfolding undeferred_from
undeferred_from-isdeferred zero i ds h = absurd (omega arith)
undeferred_from-isdeferred (suc n) i ds h = elim (Bool-cases (isdeferred i ds)) [
  | inl d ↦
      let (j, e, u) = undeferred_from-isdeferred n (suc i) ds (
        omega (
          arith,
          count_lt (leb i) (leb (suc i)) i ds (λ j l. ground arith) d (ground arith) (ground arith),
        )) in
      (j, rw d e, u)
  | inr d ↦ (i, rw d refl, d)
]

same_self : (n : ℕ) → (n == n) ≡ true
same_self n = ground arith

or_false_right : (a b : Bool) → (a || b) ≡ false → b ≡ false
or_false_right a b h = ground arith

not_or : (a b : Bool) → not (a || b) ≡ true → not b ≡ true
not_or a b h = ground arith

-- What the system documents of `dup` and `close`, with the descriptors that are open.
pub record IsKernel {K : Type 0} (os : Kernel K) (is_open : K → ℕ → Bool) : Type 0 where
  pub dup_free :
      (i n : ℕ) (k k' : K)
      → os.dup i k ≡ dup_ok n k'
      → (is_open k n ≡ false) × ((j : ℕ) → is_open k' j ≡ ((j == n) || is_open k j))
  pub dup_closed : (i : ℕ) (k : K) → os.dup i k ≡ dup_ebadf → is_open k i ≡ false
  pub close_one : (n : ℕ) (k : K) (j : ℕ) → is_open (os.close n k) j ≡ (not (j == n) && is_open k j)

module _ {K : Type 0} (os : Kernel K) (is_open : K → ℕ → Bool) (law : IsKernel os is_open) where
  -- An exception, or a descriptor that is closed and not deferred, and the descriptors as before.
  unfoldable pub IsFresh : List Defer → K → NewFd K → Type 0
  IsFresh ds k (new_fd n k') =
      (isdeferred n ds ≡ false) × (is_open k n ≡ false) × ((j : ℕ) → is_open k' j ≡ is_open k j)
  IsFresh ds k (newfd_failed k') = Unit
  IsFresh ds k out_of_fuel = ⊥

  -- The deferred descriptors that are closed.
  closed : K → List Defer → ℕ
  closed k ds = count (λ j. not (is_open k j)) ds

  -- A copy that is closed again leaves the descriptors as they were.
  close_copy :
      (i n : ℕ) (k k' k'' : K)
      → os.dup i k ≡ dup_ok n k'
      → ((j : ℕ) → is_open k'' j ≡ is_open k' j)
      → (j : ℕ) → is_open (os.close n k'') j ≡ is_open k j
  close_copy i n k k' k'' e s j =
      let (free, opens) = law.dup_free i n k k' e in
      elim (Bool-cases (j == n)) [
        | inl same ↦ law.close_one n k'' j ∙ rw same (sym free ∙ ap (is_open k) (sym (equal same)))
        | inr other ↦ law.close_one n k'' j ∙ rw other (s j ∙ opens j ∙ rw other refl)
      ]
    where
      equal : (j == n) ≡ true → j ≡ n
      equal same = ground arith

  -- Behind the call of itself, the copy is closed again.
  close_behind-IsFresh :
      (i n : ℕ) (ds : List Defer) (k k' : K) (r : NewFd K)
      → os.dup i k ≡ dup_ok n k'
      → IsFresh ds k' r
      → IsFresh ds k (close_behind os n r)
  unfolding IsFresh
  close_behind-IsFresh i n ds k k' (new_fd m k'') e (u, f, s) =
      let (free, opens) = law.dup_free i n k k' e in
      (u, or_false_right (m == n) (is_open k m) (sym (opens m) ∙ f), close_copy i n k k' k'' e s)
  close_behind-IsFresh i n ds k k' (newfd_failed k'') e h = tt
  close_behind-IsFresh i n ds k k' out_of_fuel e h = h

  -- The copy is one of the deferred descriptors that were closed.
  closed_lt :
      (i n : ℕ) (ds : List Defer) (k k' : K)
      → os.dup i k ≡ dup_ok n k'
      → isdeferred n ds ≡ true
      → closed k' ds < closed k ds
  unfolding closed
  closed_lt i n ds k k' e d =
      let (free, opens) = law.dup_free i n k k' e in
      count_lt _ _ n ds (λ j h. not_or (j == n) (is_open k j) (ap not (sym (opens j)) ∙ h)) d
        (ap not free) (ap not (opens n) ∙ rw (same_self n) refl)

  newfd_lem : (n : ℕ) (ds : List Defer) (k : K) → closed k ds < n → IsFresh ds k (newfd os n ds k)
  unfolding newfd IsFresh
  newfd_lem zero ds k h = absurd (omega arith)
  newfd_lem (suc n) ds k h =
      let (i, e, u) =
        undeferred_from-isdeferred (suc (length ds)) 3 ds
          (omega (arith, count-length (leb 3) ds)) in
      rw e (behind (λ k' l. newfd_lem n ds k' l) i u (os.dup i k) refl)
    where
      behind :
          ((k' : K) → closed k' ds < n → IsFresh ds k' (newfd os n ds k'))
          → (i : ℕ) → isdeferred i ds ≡ false
          → (r : Dup K) → os.dup i k ≡ r
          → IsFresh ds k (behind_dup os i ds k r (λ k'. newfd os n ds k'))
      behind again i u dup_ebadf e = (u, law.dup_closed i k e, λ j. refl)
      behind again i u dup_error e = tt
      behind again i u (dup_ok m k') e = elim (Bool-cases (isdeferred m ds)) [
        | inl d ↦
            rw (d, IsFresh, behind_dup)
              (close_behind-IsFresh i m ds k k' (newfd os n ds k') e
                (again k' (omega (arith, closed_lt i m ds k k' e d))))
        | inr d ↦
            rw (d, IsFresh, behind_dup)
              (d, (law.dup_free i m k k' e).0, close_copy i m k k' k' e (λ j. refl))
      ]

  -- With one unit of fuel more than there are deferred operations, `newfd` comes to an end: by the
  -- exception for an error of `dup`, or with a descriptor that is closed and that no deferred
  -- operation is for, and the same descriptors open as before. `dup` is taken to give a closed
  -- descriptor, which it opens, or the error EBADF for one that is closed, and `close` to close one.
  pub newfd-IsFresh : (ds : List Defer) (k : K) → IsFresh ds k (newfd os (suc (length ds)) ds k)
  unfolding closed
  newfd-IsFresh ds k =
      newfd_lem (suc (length ds)) ds k (omega (arith, count-length (λ j. not (is_open k j)) ds))
