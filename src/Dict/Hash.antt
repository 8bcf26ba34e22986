-- ===== src/Dict/Hash.antt =====
-- src/dict.c: `strhash2`, and `streq2` of src/util.c, which look at two strings as one.
use Prim.Native.Nat.{bit_and, bit_or, bit_xor}
use desh.Common.{
  ℕ, ◌+◌, ◌-◌, ◌*◌, ◌/◌, ◌%◌, ◌^◌, ◌≡◌, refl, Bool, true, false, [], ◌∷◌, ◌++◌, ◌==◌, Str, streq,
  if◌then◌else◌, arith,
}

-- The four statements of the loop, in their order.
pub data Phase : Type 0 where
  first second third fourth : Phase

abbrev pub next_phase : Phase → Phase
next_phase first = second
next_phase second = third
next_phase third = fourth
next_phase fourth = first

-- `n` is an unsigned long of 64 bits, `c` an int below 256. `~c << 11` is `-(c + 1) * 2048`.
pub mix : Phase → ℕ → ℕ → ℕ
mix first c n =
    (n + bit_xor (bit_xor (bit_xor (c * 2 ^ 17) (c * 2 ^ 11)) (c * 2 ^ 5)) (c / 2)) % 2 ^ 64
mix second c n = bit_xor n (c * 2 ^ 14 + c * 2 ^ 7 + c * 2 ^ 4 + c)
mix third c n = bit_xor n (bit_or (2 ^ 64 - (c + 1) * 2 ^ 11) (bit_xor (c * 2 ^ 3) (c / 2)))
mix fourth c n =
    (n + 2 ^ 64 - bit_or (bit_or (bit_or (c * 2 ^ 16) (c * 2 ^ 9)) (c * 2 ^ 2)) (bit_and c 3))
    % 2 ^ 64

-- The loop once `str2` is NULL: `ADVANCE` breaks at the end of the string.
pub hash_last : Phase → ℕ → Str → ℕ
hash_last ph n [] = n
hash_last ph n (c ∷ s) = hash_last (next_phase ph) (mix ph c n) s

-- The loop while `str2` is set: `ADVANCE` goes on with it at the end of the first string.
pub hash_first : Phase → ℕ → Str → Str → ℕ
hash_first ph n [] t = hash_last ph n t
hash_first ph n (c ∷ s) t = hash_first (next_phase ph) (mix ph c n) s t

unfoldable pub strhash2 : Str → Str → ℕ
unfolding mix hash_last hash_first
strhash2 s t = hash_first first 0 s t

-- `strhash2(str, NULL)`
unfoldable pub strhash : Str → ℕ
unfolding mix hash_last
strhash s = hash_last first 0 s

-- The second loop of `streq2`, with `*s == '\0'` behind it.
pub streq2_rest : Str → Str → Bool
streq2_rest [] [] = true
streq2_rest (x ∷ s) [] = false
streq2_rest [] (c ∷ t) = false
streq2_rest (x ∷ s) (c ∷ t) = if c == x then streq2_rest s t else false

unfoldable pub streq2 : Str → Str → Str → Bool
unfolding streq2_rest
streq2 s [] u = streq2_rest s u
streq2 [] (c ∷ t) u = false
streq2 (x ∷ s) (c ∷ t) u = if c == x then streq2 s t u else false

hash_first-append : (ph : Phase) (n : ℕ) (s t : Str) → hash_first ph n s t ≡ hash_last ph n (s ++ t)
unfolding hash_first hash_last
hash_first-append ph n [] t = refl
hash_first-append ph n (c ∷ s) t = hash_first-append (next_phase ph) (mix ph c n) s t

-- The hash of two strings is the hash of their catenation.
pub strhash2-append : (s t : Str) → strhash2 s t ≡ strhash (s ++ t)
unfolding strhash2 strhash
strhash2-append s t = hash_first-append first 0 s t

streq2_rest-streq : (s t : Str) → streq2_rest s t ≡ streq (t) s
unfolding streq2_rest
streq2_rest-streq [] [] = refl
streq2_rest-streq (x ∷ s) [] = refl
streq2_rest-streq [] (c ∷ t) = refl
streq2_rest-streq (x ∷ s) (c ∷ t) = ground (arith, streq2_rest-streq s t)

-- A string is equal to two others in turn exactly if it is equal to their catenation.
pub streq2-append : (s t u : Str) → streq2 s t u ≡ streq (t ++ u) s
unfolding streq2
streq2-append s [] u = streq2_rest-streq s u
streq2-append [] (c ∷ t) u = refl
streq2-append (x ∷ s) (c ∷ t) u = ground (arith, streq2-append s t u)
