-- ===== src/Glom/Subscript.antt =====
-- src/glom.cpp: `subscript`, which keeps a place in the list from one range to the next.
pub mod Ranges
pub mod Safe
pub mod Visits
use desh.Common.{
  ℕ, zero, suc, ◌+◌, ◌-◌, ◌≤◌, ◌<◌, ◌≡◌, refl, ap, sym, ◌∙◌, subst, Bool, true, false, Option, none,
  some, List, [], ◌∷◌, ◌++◌, ltb, leb, if◌then◌else◌, Str, codes, streq, length, take, drop,
  Bool-cases, inl, inr, arith,
}
use desh.Glom.Terms.{ℤ, pos, negsuc, Failure, bad_subscript, Outcome, value, failed, null_read}

-- The place in the list, the next position to visit, and the result so far.
pub record Cursor {ℓ} (A : Type ℓ) : Type ℓ where
  pub counter : ℕ
  pub current : List A
  pub result : List A

-- `streq(…, "...")`
abbrev pub is_dots : Str → Bool
is_dots s = streq s (codes "...")

-- `if (lo < 1) fail(…)`, with the rest of the function.
abbrev pub positive {ℓ} : {A : Type ℓ} → ℤ → Str → (ℕ → Outcome A) → Outcome A
positive (ℤ.pos (suc n)) s next = next (suc n)
positive (ℤ.pos zero) s next = Outcome.failed (Failure.bad_subscript s)
positive (ℤ.negsuc n) s next = Outcome.failed (Failure.bad_subscript s)

module _ {ℓ} {A : Type ℓ} where
  -- `n` rounds of `current = current->next`
  pub skip : ℕ → List A → Option (List A)
  skip zero current = some current
  skip (suc n) [] = none
  skip (suc n) (x ∷ current) = skip n current

  -- `n` rounds that also copy the term.
  pub copy : ℕ → List A → List A → Option (List A × List A)
  copy zero current result = some (current, result)
  copy (suc n) [] result = none
  copy (suc n) (x ∷ current) result = copy n current (result ++ x ∷ [])

  -- The two for loops at the end of a round, after the reset.
  pub copy_after : ℕ → ℕ → List A → Option (List A) → Option (Cursor A)
  copy_after lo hi result none = none
  copy_after lo hi result (some current) = finish (copy (hi + 1 - lo) current result)
    where
      finish : Option (List A × List A) → Option (Cursor A)
      finish none = none
      finish (some (rest, all)) =
          some (record { counter = lo + (hi + 1 - lo); current = rest; result = all })

  -- `if (counter > lo) { current = list; counter = 1; }`
  abbrev pub rewind : List A → ℕ → Cursor A → Cursor A
  rewind xs lo st = if ltb lo st.counter then record st { counter = 1; current = xs } else st

  -- A round for the range from `lo` to `hi`.
  pub visit : List A → ℕ → ℕ → Cursor A → Option (Cursor A)
  unfolding skip copy copy_after
  visit xs lo hi st =
      if ltb (length xs) lo
      then some st
      else (let st' = rewind xs lo st in
          copy_after lo hi st'.result (skip (lo - st'.counter) st'.current))

  abbrev pub or_null {κ} : {B : Type κ} → Option (Cursor A) → (Cursor A → Outcome B) → Outcome B
  or_null none next = Outcome.null_read
  or_null (some st) next = next st

-- The calls of `getstr` and of `atoi`, which is a function of the C library.
module _ {ℓ} {A : Type ℓ} {T : Type 0} (getstr : T → Str) (atoi : Str → ℤ) (xs : List A) where
  abbrev ended : Cursor A → Outcome (List A)
  ended st = Outcome.value st.result

  -- `hi = atoi(…)`, no more than the length, and the end of the round.
  abbrev to_high : ℕ → T → Cursor A → (Cursor A → Outcome (List A)) → Outcome (List A)
  to_high lo u st next =
      positive (atoi (getstr u)) (getstr u)
        (λ hi. or_null (visit xs lo (if ltb (length xs) hi then length xs else hi) st) next)

  -- The while loop.
  pub subscript_loop : List T → Cursor A → Outcome (List A)
  subscript_loop [] st = ended st
  subscript_loop (t ∷ []) st =
      positive (atoi (getstr t)) (getstr t) (λ lo. or_null (visit xs lo lo st) ended)
  subscript_loop (t ∷ d ∷ []) st =
      let next = subscript_loop (d ∷ []) in
      positive (atoi (getstr t)) (getstr t) (λ lo.
        if is_dots (getstr d)
        then or_null (visit xs lo (length xs) st) ended
        else or_null (visit xs lo lo st) next)
  subscript_loop (t ∷ d ∷ u ∷ subs) st =
      let next = subscript_loop (d ∷ u ∷ subs) in
      let after = subscript_loop subs in
      positive (atoi (getstr t)) (getstr t) (λ lo.
        if is_dots (getstr d) then to_high lo u st after else or_null (visit xs lo lo st) next)

  -- The jump to `mid_range`, where `lo` is 1.
  pub from_start : List T → Cursor A → Outcome (List A)
  unfolding subscript_loop visit
  from_start [] st = or_null (visit xs 1 (length xs) st) ended
  from_start (u ∷ subs) st = to_high 1 u st (subscript_loop subs)

  abbrev start : Cursor A
  start = record { counter = 1; current = xs; result = [] }

  unfoldable pub subscript : List T → Outcome (List A)
  unfolding from_start subscript_loop visit
  subscript [] = subscript_loop [] start
  subscript (t ∷ subs) =
      if is_dots (getstr t) then from_start subs start else subscript_loop (t ∷ subs) start
