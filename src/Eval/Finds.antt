-- ===== src/Eval/Finds.antt =====
-- src/var.c: the loop over bindings, and a binding that is changed.
use desh.Common.{
  ℕ, ◌<◌, suc, Bool, true, false, ◌&&◌, Option, none, some, List, [], ◌∷◌, ◌≡◌, refl, ap, arith,
  length, ◌==◌, ==_iff, if◌then◌else◌, if_split, Str,
}
use desh.Eval.State.{Ref, Value, Binding}
use desh.Eval.Bindings.{find, write, rebind}

both : (a b : Bool) → (a && b) ≡ true → (a ≡ true) × (b ≡ true)
both true b h = (refl, h)
both false b h = absurd (wrong h)
  where
    wrong : false ≡ true → ⊥
    wrong h = ground arith

differ : (m n : ℕ) → m < n → (n == m) ≡ false
differ m n h = ground arith

-- The binding with a number.
unfoldable pub at : List Binding → ℕ → Option Binding
at [] i = none
at (b ∷ bs) i = if length bs == i then some b else at bs i

-- What is found passes the test, and has the number that is found with it.
unfoldable pub Finds : (Str → Bool) → List Binding → Option (ℕ × Binding) → Type 0
Finds test bs none = Unit
Finds test bs (some (i, x)) = (test x.name ≡ true) × (i < length bs) × (at bs i ≡ some x)

pub find-Finds : (test : Str → Bool) (bs : List Binding) (r : Ref) → Finds test bs (find test bs r)
unfolding find Finds at
find-Finds test [] none = tt
find-Finds test (b ∷ bs) none = tt
find-Finds test [] (some n) = tt
find-Finds test (b ∷ bs) (some n) =
    let r = if length bs == n then b.next else some n in
    if_split (Finds test (b ∷ bs)) ((length bs == n) && test b.name) (some (n, b)) (find test bs r)
      (λ h. first (both (length bs == n) (test b.name) h))
      (λ h. later (find test bs r) (find-Finds test bs r))
  where
    at_head : (length bs == n) ≡ true → n < suc (length bs)
    at_head e = omega (arith, (==_iff (length bs) n).0 e)

    first : (length bs == n) ≡ true × (test b.name ≡ true) → Finds test (b ∷ bs) (some (n, b))
    first (e, t) = (t, at_head e, rw e refl)

    later : (o : Option (ℕ × Binding)) → Finds test bs o → Finds test (b ∷ bs) o
    later none h = tt
    later (some (i, x)) (t, l, e) = (t, omega arith, rw (differ i (length bs) l) e)

length-rebind : (n : ℕ) (d : List Value) (bs : List Binding) → length (rebind n d bs) ≡ length bs
unfolding rebind
length-rebind n d [] = refl
length-rebind n d (b ∷ bs) = ap suc (length-rebind n d bs)

unfoldable pub moved : ℕ → List Value → Option (ℕ × Binding) → Option (ℕ × Binding)
moved n d none = none
moved n d (some (i, x)) = some (i, write n d i x)

pub find-rebind :
    (test : Str → Bool) (n : ℕ) (d : List Value) (bs : List Binding) (r : Ref)
    → find test (rebind n d bs) r ≡ moved n d (find test bs r)
unfolding find rebind moved
find-rebind test n d [] none = refl
find-rebind test n d (b ∷ bs) none = refl
find-rebind test n d [] (some m) = refl
find-rebind test n d (b ∷ bs) (some m) = rw (length-rebind n d bs) (
    split ((length bs == m) && test b.name) _ _ (both (length bs == m) (test b.name))
      (find-rebind test n d bs (if length bs == m then b.next else some m)))
  where
    split :
        (c : Bool) (x y : Option (ℕ × Binding))
        → (c ≡ true → ((length bs == m) ≡ true) × (test b.name ≡ true))
        → x ≡ moved n d y
        → (if c then some (m, write n d (length bs) b) else x)
          ≡ moved n d (if c then some (m, b) else y)
    split true x y h e = ap (λ i. some (m, write n d i b)) ((==_iff (length bs) m).0 ((h refl).0))
    split false x y h e = e
