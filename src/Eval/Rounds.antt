-- ===== src/Eval/Rounds.antt =====
-- src/eval.c: the rounds of a for loop, and closures that are lists.
use desh.Common.{
  ℕ, zero, suc, ◌+◌, ◌≤◌, ◌<◌, true, false, List, [], ◌∷◌, ◌++◌, codes, ◌≡◌, refl, ◌∙◌, ap, arith,
  map, length, length-drop, if◌then◌else◌, Bool-cases, ◌⊎◌, inl, inr,
}
use desh.Glom.Terms.{Tree, Outcome}
use desh.Glom.Walk.{Call, after}
use desh.Var.Dictionary.{Dictionary}
use desh.Var.State.{Var}
use desh.Eval.State.{Ref, Value, Flags, Sh, Rec, Outside}
use desh.Eval.Bindings.{mkbindings}
use desh.Eval.Throw.{sigchk, fail_in, catching, throwing, catch_named, leave_handler, enter_handler}
use desh.Eval.Let.{Defn, defns, ltrue, shell, words, with_vars}
use desh.Glom.Walk.{glom}
use desh.Eval.For.{
  Group, deal_all, dealt, all_null, total, for_rounds, for_defn, for_defns, forloop, validate_all,
  only_exit,
}

-- Each group has a name.
unfoldable pub AllNamed : List Group → Type 0
AllNamed [] = Unit
AllNamed (([], list) ∷ groups) = ⊥
AllNamed ((x ∷ names, list) ∷ groups) = AllNamed groups

dealt-AllNamed : (groups : List Group) → AllNamed groups → AllNamed (map dealt groups)
unfolding AllNamed
dealt-AllNamed [] h = tt
dealt-AllNamed (([], list) ∷ groups) h = absurd h
dealt-AllNamed ((x ∷ names, list) ∷ groups) h = dealt-AllNamed groups h

dealt-total : (groups : List Group) → AllNamed groups → total (map dealt groups) ≤ total groups
unfolding AllNamed total
dealt-total [] h = omega arith
dealt-total (([], list) ∷ groups) h = absurd h
dealt-total ((x ∷ names, []) ∷ groups) h = omega (arith, dealt-total groups h)
dealt-total ((x ∷ names, v ∷ list) ∷ groups) h =
    omega (arith, dealt-total groups h, length-drop (length names) list)

-- A round takes a value, unless all are taken.
dealt-less :
    (groups : List Group)
    → AllNamed groups
    → all_null groups ≡ false
    → total (map dealt groups) < total groups
unfolding AllNamed total all_null
dealt-less [] h e = ground arith
dealt-less (([], list) ∷ groups) h e = absurd h
dealt-less ((x ∷ names, []) ∷ groups) h e = omega (arith, dealt-less groups h e)
dealt-less ((x ∷ names, v ∷ list) ∷ groups) h e =
    omega (arith, dealt-total groups h, length-drop (length names) list)

-- Calls that go on in the same way are equal.
after_cong :
    {S A C : Type 0} (r : Outcome A × S) (f g : A → Call S C)
    → ((a : A) (s : S) → f a s ≡ g a s)
    → after r f ≡ after r g
after_cong (Outcome.value a, s) f g h = h a s
after_cong (Outcome.failed e, s) f g h = refl
after_cong (Outcome.null_read, s) f g h = refl

-- A value that the call gives has the property.
unfoldable Gives : {S A : Type 0} → (A → Type 0) → Outcome A × S → Type 0
Gives P (Outcome.value a, s) = P a
Gives P (Outcome.failed f, s) = Unit
Gives P (Outcome.null_read, s) = Unit

abbrev Anything : {A : Type 0} → A → Type 0
Anything a = Unit

anything : {S A : Type 0} (r : Outcome A × S) → Gives Anything r
unfolding Gives
anything (Outcome.value a, s) = tt
anything (Outcome.failed f, s) = tt
anything (Outcome.null_read, s) = tt

after-Gives :
    {S A C : Type 0} (Q : A → Type 0) (P : C → Type 0) (r : Outcome A × S) (f : A → Call S C)
    → Gives Q r
    → ((a : A) (s : S) → Q a → Gives P (f a s))
    → Gives P (after r f)
unfolding Gives
after-Gives Q P (Outcome.value a, s) f q h = h a s q
after-Gives Q P (Outcome.failed e, s) f q h = tt
after-Gives Q P (Outcome.null_read, s) f q h = tt

after_cong_Gives :
    {S A C : Type 0} (Q : A → Type 0) (r : Outcome A × S) (f g : A → Call S C)
    → Gives Q r
    → ((a : A) (s : S) → Q a → f a s ≡ g a s)
    → after r f ≡ after r g
unfolding Gives
after_cong_Gives Q (Outcome.value a, s) f g q h = h a s q
after_cong_Gives Q (Outcome.failed e, s) f g q h = refl
after_cong_Gives Q (Outcome.null_read, s) f g q h = refl

AllNamed-append : (a b : List Group) → AllNamed a → AllNamed b → AllNamed (a ++ b)
unfolding AllNamed
AllNamed-append [] b g h = h
AllNamed-append (([], list) ∷ a) b g h = absurd g
AllNamed-append ((x ∷ names, list) ∷ a) b g h = AllNamed-append a b g h

module _ {W : Type 0} {dict : Dictionary (Var Value)} (outside : Outside W dict)
    (rec : Rec W dict) where
  -- More fuel than there are values left makes no difference.
  for_rounds_enough :
      (fuel more : ℕ) (groups : List Group) (body : Tree) (outer : Ref) (flags : Flags)
      (result : List Value) (s : Sh W dict)
      → total groups < fuel
      → AllNamed groups
      → for_rounds dict outside rec (fuel + more) groups body outer flags result s
        ≡ for_rounds dict outside rec fuel groups body outer flags result s
  unfolding for_rounds
  for_rounds_enough zero more groups body outer flags result s h names = absurd (omega arith)
  for_rounds_enough (suc fuel) more groups body outer flags result s h names =
      ap (λ k. for_rounds dict outside rec k groups body outer flags result s) (flip fuel more)
      ∙ after_cong (mkbindings dict outside (deal_all groups) outer s) _ _ (λ bp t.
        round bp t (Bool-cases (all_null groups)) (λ e list v.
          for_rounds_enough fuel more (map dealt groups) body outer flags list v
            (less (dealt-less groups names e) h) (dealt-AllNamed groups names)))
    where
      flip : (m k : ℕ) → suc m + k ≡ suc (m + k)
      flip m k = omega arith

      less : {i j k : ℕ} → i < j → j < suc k → i < k
      less a c = omega arith

      go_on : ℕ → List Value → Call (Sh W dict) (List Value)
      go_on k list = for_rounds dict outside rec k (map dealt groups) body outer flags list

      round :
          (bp : Ref) (t : Sh W dict)
          → (all_null groups ≡ true) ⊎ (all_null groups ≡ false)
          → (all_null groups ≡ false
              → (list : List Value) (v : Sh W dict)
              → go_on (fuel + more) list v ≡ go_on fuel list v)
          → (if all_null groups
              then (Outcome.value result, t)
              else after
                  (rec.walk body bp flags t)
                  (λ list u. after (sigchk dict outside rec u) (λ x. go_on (fuel + more) list)))
            ≡ (if all_null groups
                then (Outcome.value result, t)
                else after
                    (rec.walk body bp flags t)
                    (λ list u. after (sigchk dict outside rec u) (λ x. go_on fuel list)))
      round bp t (inl e) next = rw e refl
      round bp t (inr e) next = rw e (
          after_cong (rec.walk body bp flags t) _ _
            (λ list u. after_cong (sigchk dict outside rec u) _ _ (λ x v. next e list v)))

  for_defn-Gives :
      (d : Defn) (outer : Ref) (s : Sh W dict)
      → Gives AllNamed (for_defn dict outside rec d outer s)
  unfolding for_defn Gives AllNamed
  for_defn-Gives Defn.absent outer s = tt
  for_defn-Gives Defn.refused outer s = tt
  for_defn-Gives (Defn.assigned t u) outer s =
      after-Gives Anything AllNamed (glom (shell dict outside rec) t outer false s) _ (anything _)
        (λ vars s' x.
          after-Gives Anything AllNamed (glom (shell dict outside rec) u outer true s') _
            (anything _) (λ list s'' y. go list vars s''))
    where
      go :
          (list vars : List Value) (s' : Sh W dict)
          → Gives AllNamed (
              with_vars dict outside rec
                (codes "es:for")
                vars
                (λ st.
                  after (validate_all dict outside rec (words dict outside rec vars) st) (λ u' st'.
                    after
                      (sigchk dict outside rec st')
                      (λ x s''. (Outcome.value ((words dict outside rec vars, list) ∷ []), s''))))
                s')
      go list [] s' = tt
      go list (v ∷ vars) s' =
          after-Gives Anything AllNamed
            (validate_all dict outside rec (words dict outside rec (v ∷ vars)) s') _ (anything _)
            (λ x t y.
              after-Gives Anything AllNamed (sigchk dict outside rec t) _ (anything _)
                (λ x' t' y'. tt))

  for_defns-Gives :
      (ds : List Defn) (outer : Ref) (s : Sh W dict)
      → Gives AllNamed (for_defns dict outside rec ds outer s)
  unfolding for_defns Gives AllNamed
  for_defns-Gives [] outer s = tt
  for_defns-Gives (d ∷ ds) outer s =
      after-Gives AllNamed AllNamed (for_defn dict outside rec d outer s) _
        (for_defn-Gives d outer s)
        (λ group t g.
          after-Gives AllNamed AllNamed (for_defns dict outside rec ds outer t) _
            (for_defns-Gives ds outer t) (λ groups t' h. AllNamed-append group groups g h))

  -- The fuel of a for loop is enough: with any more of it for its rounds, `forloop` does the same in every state, whatever the body, the evaluator and the signals do.
  pub forloop_enough :
      (more : ℕ) (defn body : Tree) (outer : Ref) (flags : Flags) (s : Sh W dict)
      → after (for_defns dict outside rec (defns defn) outer s) (λ groups.
        catching dict outside rec
          (throwing dict outside rec (
            for_rounds dict outside rec
              (total groups + 1 + more)
              groups
              body
              outer
              (only_exit dict outside rec flags)
              ltrue))
          (catch_named dict outside rec (codes "break")))
        ≡ forloop dict outside rec defn body outer flags s
  unfolding forloop catching
  forloop_enough more defn body outer flags s =
      after_cong_Gives AllNamed (for_defns dict outside rec (defns defn) outer s) _ _
        (for_defns-Gives (defns defn) outer s)
        (λ groups t names.
          ap
            (λ r.
              leave_handler dict outside rec t.rest.handlers
                (catch_named dict outside rec (codes "break")) (fail_in dict outside rec r))
            (for_rounds_enough (total groups + 1) more groups body outer
              (only_exit dict outside rec flags) ltrue (enter_handler dict outside rec t)
              (above (total groups)) names))
    where
      above : (n : ℕ) → n < n + 1
      above n = omega arith
