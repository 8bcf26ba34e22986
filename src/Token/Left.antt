-- ===== src/Token/Left.antt =====
-- src/token.c: the loops of the lexer leave no more input than they find.
use desh.Common.{ℕ, suc, ◌+◌, ◌-◌, ◌*◌, ◌≤◌, List, [], ◌∷◌, ◌==◌, length, arith, if_split, Str}
use desh.Token.State.{Meta, is_meta, skip_line, FdEnd}
use desh.Token.Scan.{
  word_bytes, read_number, Fds, fds, bad_fds, fds_end, fds_equals, fds_switch, fds_first, getfds,
  is_digit,
}

pub skip_line-left : (s : List ℕ) → length (skip_line s) ≤ length s
unfolding skip_line
skip_line-left [] = omega arith
skip_line-left (c ∷ s) = ground (arith, skip_line-left s)

pub word_bytes-left : (meta : Meta) (s : List ℕ) → length ((word_bytes meta s).1) ≤ length s
unfolding word_bytes
word_bytes-left meta [] = omega arith
word_bytes-left meta (c ∷ s) =
    if_split (λ (p : Str × List ℕ). length (p.1) ≤ suc (length s)) (is_meta meta c) _ _
      (λ b. omega arith) (λ b. omega (arith, word_bytes-left meta s))

read_number-left : (n : ℕ) (s : List ℕ) → length ((read_number n s).1) ≤ length s
unfolding read_number
read_number-left n [] = omega arith
read_number-left n (c ∷ s) =
    if_split (λ (p : ℕ × List ℕ). length (p.1) ≤ suc (length s)) (is_digit c) _ _
      (λ b. omega (arith, read_number-left (n * 10 + (c - b'0')) s)) (λ b. omega arith)

-- What `getfds` leaves.
abbrev pub fds_left : Fds → List ℕ
fds_left (fds n m left) = left
fds_left (bad_fds message left) = left

fds_end-left : (n : ℕ) (p : ℕ × List ℕ) → length (fds_left (fds_end n p)) ≤ length (p.1)
unfolding fds_end
fds_end-left n (m, []) = omega arith
fds_end-left n (m, c ∷ s) =
    if_split (λ f. length (fds_left f) ≤ suc (length s)) (c == b']') _ _ (λ b. omega arith)
      (λ b. omega arith)

fds_equals-left : (n : ℕ) (s : List ℕ) → length (fds_left (fds_equals n s)) ≤ length s
unfolding fds_equals
fds_equals-left n [] = omega arith
fds_equals-left n (c ∷ s) =
    if_split (λ f. length (fds_left f) ≤ suc (length s)) (is_digit c) _ _
      (λ b. omega (arith, fds_end-left n (read_number (c - b'0') s), read_number-left (c - b'0') s))
      (λ b.
        if_split (λ f. length (fds_left f) ≤ suc (length s)) (c == b']') _ _ (λ j. omega arith)
          (λ j. omega arith))

fds_switch-left :
    (second : FdEnd) (p : ℕ × List ℕ) → length (fds_left (fds_switch second p)) ≤ length (p.1)
unfolding fds_switch
fds_switch-left second (n, []) = omega arith
fds_switch-left second (n, c ∷ s) =
    if_split (λ f. length (fds_left f) ≤ suc (length s)) (c == b'=') _ _
      (λ b. omega (arith, fds_equals-left n s))
      (λ b.
        if_split (λ f. length (fds_left f) ≤ suc (length s)) (c == b']') _ _ (λ j. omega arith)
          (λ j. omega arith))

fds_first-left : (second : FdEnd) (s : List ℕ) → length (fds_left (fds_first second s)) ≤ length s
unfolding fds_first
fds_first-left second [] = omega arith
fds_first-left second (c ∷ s) =
    if_split (λ f. length (fds_left f) ≤ suc (length s)) (is_digit c) _ _
      (λ b.
        omega
          (arith, fds_switch-left second (read_number (c - b'0') s), read_number-left (c - b'0') s))
      (λ b. omega arith)

pub getfds-left :
    (s : List ℕ) (first : ℕ) (second : FdEnd) → length (fds_left (getfds s first second)) ≤ length s
unfolding getfds
getfds-left [] first second = omega arith
getfds-left (c ∷ s) first second =
    if_split (λ f. length (fds_left f) ≤ suc (length s)) (c == b'[') _ _
      (λ b. omega (arith, fds_first-left second s)) (λ b. omega arith)
