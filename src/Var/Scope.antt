-- ===== src/Var/Scope.antt =====
-- src/var.c: a definition for a scope is undone at its end.
use desh.Common.{
  Bool, true, false, none, some, List, [], ◌∷◌, ◌++◌, if◌then◌else◌, Str, codes, streq, ◌≡◌, refl,
  sym, ap, ◌∙◌, ◌⊎◌, inl, inr, if_split, Bool-cases, streq→eq, streq_refl, arith, length,
}
use desh.Glom.Terms.{Outcome}
use desh.Glom.Walk.{Call, after}
use desh.Var.Dictionary.{Dictionary}
use desh.Var.State.{Var, Push, Vars, specialvar, validatevar, isexported}
use desh.Var.Assign.{
  mkvar, defn_of, mark, push_var, pop_var, restored, callsettor, varpush, varpop, pop_push,
  old_hasbindings, old_isinternal, varlookup2, is_nothing,
}

longer-streq : (s : Str) → streq (codes "set-" ++ s) s ≡ false
longer-streq s = elim (Bool-cases (streq (codes "set-" ++ s) s)) [
  | inl h ↦ absurd (longer (ap length (streq→eq (codes "set-" ++ s) s h)))
  | inr h ↦ h
]
  where
    longer : length (codes "set-" ++ s) ≡ length s → ⊥
    longer h = omega arith

module _ {T X : Type 0} (dict : Dictionary (Var T)) (has_binding : T → Bool) (mkstr : Str → T)
    (eval : List T → Call (Vars T dict X) (List T)) where
  -- What a variable has, with no bindings.
  unfoldable pub value : Vars T dict X → Str → List T
  value st j = defn_of dict has_binding mkstr eval (dict.get st.vars j)

  restored-defn_of :
      (p : Push T)
      → defn_of dict has_binding mkstr eval (restored dict has_binding mkstr eval p) ≡ p.pushed
  restored-defn_of p = go p.pushed
    where
      go :
          (ts : List T)
          → defn_of dict has_binding mkstr eval
              (restored dict has_binding mkstr eval (record p { pushed = ts }))
            ≡ ts
      go [] = refl
      go (t ∷ ts) = refl

  -- What `pop_var` puts back, over a definition of the same variable.
  pop_var-value :
      (p : Push T) (v : Var T) (st st' : Vars T dict X) (j : Str)
      → st'.vars ≡ dict.put st.vars p.name (some v)
      → p.pushed ≡ value st p.name
      → value (pop_var dict has_binding mkstr eval p st') j ≡ value st j
  unfolding value pop_var
  pop_var-value p v st st' j e h =
      if_split (λ (s : Vars T dict X). value s j ≡ value st j)
        (is_nothing dict has_binding mkstr eval (dict.get st'.vars p.name)
          (restored dict has_binding mkstr eval p))
        _ _ (λ b. absurd (something b))
        (λ b.
          ap (defn_of dict has_binding mkstr eval)
            (dict.get_put st'.vars p.name (restored dict has_binding mkstr eval p) j)
          ∙ behind (streq j p.name) refl)
    where
      reads :
          (i : Str) → dict.get st'.vars i ≡ (if streq i p.name then some v else dict.get st.vars i)
      reads i = ap (λ d. dict.get d i) e ∙ dict.get_put st.vars p.name (some v) i

      there : dict.get st'.vars p.name ≡ some v
      there = reads p.name ∙ rw (streq_refl p.name) refl

      no_confusion : false ≡ true → ⊥
      no_confusion h = ground arith

      something :
          is_nothing dict has_binding mkstr eval
              (dict.get st'.vars p.name)
              (restored dict has_binding mkstr eval p)
            ≡ true
          → ⊥
      something b = no_confusion (
          ap
            (λ o. is_nothing dict has_binding mkstr eval o (restored dict has_binding mkstr eval p))
            (sym there)
          ∙ b)

      behind :
          (b : Bool)
          → streq j p.name ≡ b
          → defn_of dict has_binding mkstr eval
              (if b then restored dict has_binding mkstr eval p else dict.get st'.vars j)
            ≡ defn_of dict has_binding mkstr eval (dict.get st.vars j)
      behind true s =
          restored-defn_of p
          ∙ h
          ∙ ap (λ i. defn_of dict has_binding mkstr eval (dict.get st.vars i))
              (sym (streq→eq j p.name s))
      behind false s =
          ap (defn_of dict has_binding mkstr eval)
            (reads j ∙ ap (λ b. if b then some v else dict.get st.vars j) s)

  -- No settor is called for the name.
  unfoldable pub NoSettor : Str → Vars T dict X → Type 0
  NoSettor name st = (specialvar name ≡ true) ⊎ (dict.get st.vars (codes "set-" ++ name) ≡ none)

  pub callsettor-NoSettor :
      (name : Str) (defn : List T) (st : Vars T dict X)
      → NoSettor name st
      → callsettor dict has_binding mkstr eval name defn st ≡ (Outcome.value defn, st)
  unfolding NoSettor callsettor varlookup2
  callsettor-NoSettor name defn st (inl h) = rw h refl
  callsettor-NoSettor name defn st (inr h) = elim (Bool-cases (specialvar name)) [
    | inl s ↦ rw s refl
    | inr s ↦ rw s (rw (dict.get2_get st.vars (codes "set-") name ∙ h) refl)
  ]

  -- `mark` changes `isdirty` alone.
  pub mark-vars :
      (name : Str) (st : Vars T dict X) → (mark dict has_binding mkstr eval name st).vars ≡ st.vars
  unfolding mark
  mark-vars name st =
      if_split (λ (s : Vars T dict X). s.vars ≡ st.vars) (isexported st.noexport name) _ _
        (λ h. refl) (λ h. refl)

  mark-pushlist :
      (name : Str) (st : Vars T dict X)
      → (mark dict has_binding mkstr eval name st).pushlist ≡ st.pushlist
  unfolding mark
  mark-pushlist name st =
      if_split (λ (s : Vars T dict X). s.pushlist ≡ st.pushlist) (isexported st.noexport name) _ _
        (λ h. refl) (λ h. refl)

  NoSettor-same :
      (name : Str) (st st' : Vars T dict X)
      → st'.vars ≡ st.vars
      → NoSettor name st
      → NoSettor name st'
  unfolding NoSettor
  NoSettor-same name st st' e (inl h) = inl h
  NoSettor-same name st st' e (inr h) = inr (ap (λ d. dict.get d (codes "set-" ++ name)) e ∙ h)

  -- The new definition is none of the settor.
  NoSettor-put :
      (name : Str) (v : Var T) (st st' : Vars T dict X)
      → st'.vars ≡ dict.put st.vars name (some v)
      → NoSettor name st
      → NoSettor name st'
  unfolding NoSettor
  NoSettor-put name v st st' e (inl h) = inl h
  NoSettor-put name v st st' e (inr h) = inr (
      ap (λ d. dict.get d (codes "set-" ++ name)) e
      ∙ dict.get_put st.vars name (some v) (codes "set-" ++ name)
      ∙ rw (longer-streq name) h)

  varpush-NoSettor :
      (name : Str) (defn : List T) (st : Vars T dict X)
      → validatevar name ≡ true
      → NoSettor name (mark dict has_binding mkstr eval name st)
      → varpush dict has_binding mkstr eval name defn st ≡ (
        Outcome.value tt,
        push_var dict has_binding mkstr eval name defn (mark dict has_binding mkstr eval name st),
      )
  unfolding varpush
  varpush-NoSettor name defn st valid free = rw valid (
      ap
        (λ (o : Outcome (List T) × Vars T dict X).
          after o
            (λ list st'. (Outcome.value tt, push_var dict has_binding mkstr eval name list st')))
        (callsettor-NoSettor name defn (mark dict has_binding mkstr eval name st) free))

  pop_push-NoSettor :
      (p : Push T) (rest : List (Push T)) (st : Vars T dict X)
      → NoSettor p.name (mark dict has_binding mkstr eval p.name st)
      → pop_push dict has_binding mkstr eval p rest st ≡ (
        Outcome.value tt,
        record (pop_var dict has_binding mkstr eval p
            (mark dict has_binding mkstr eval p.name st)) { pushlist = rest },
      )
  unfolding pop_push
  pop_push-NoSettor p rest st free =
      ap
        (λ (o : Outcome (List T) × Vars T dict X). after o (λ list st'. (
          Outcome.value tt,
          record (pop_var dict has_binding mkstr eval (record p { pushed = list }) st') {
            pushlist = rest;
          },
        )))
        (callsettor-NoSettor p.name p.pushed (mark dict has_binding mkstr eval p.name st) free)

  -- Where the name is valid and has no settor, `varpush` and then `varpop` return, and each variable
  -- has the value that it had before, and the list of pushes is as before.
  pub varpop-varpush :
      (name : Str) (defn : List T) (st : Vars T dict X)
      → validatevar name ≡ true
      → NoSettor name st
      → (st' : Vars T dict X) × (after
            (varpush dict has_binding mkstr eval name defn st)
            (λ u. varpop dict has_binding mkstr eval)
          ≡ (Outcome.value tt, st'))
        × (st'.pushlist ≡ st.pushlist)
        × ((j : Str) → value st' j ≡ value st j)
  unfolding varpush varpop pop_push push_var value
  varpop-varpush name defn st valid free = (
    record (pop_var dict has_binding mkstr eval p (mark dict has_binding mkstr eval name st₂)) {
      pushlist = st₁.pushlist;
    },
    ap (λ (o : Outcome Unit × Vars T dict X). after o (λ u. varpop dict has_binding mkstr eval))
          (varpush-NoSettor name defn st valid free₁)
        ∙ pop_push-NoSettor p st₁.pushlist st₂ free₃,
    mark-pushlist name st,
    λ j.
        pop_var-value p (mkvar has_binding defn) st₁ (mark dict has_binding mkstr eval name st₂) j
          (mark-vars name st₂) refl
        ∙ ap (λ d. defn_of dict has_binding mkstr eval (dict.get d j)) (mark-vars name st),
  )
    where
      st₁ : Vars T dict X
      st₁ = mark dict has_binding mkstr eval name st

      st₂ : Vars T dict X
      st₂ = push_var dict has_binding mkstr eval name defn st₁

      p : Push T
      p = record {
        name = name;
        pushed = defn_of dict has_binding mkstr eval (dict.get st₁.vars name);
        pushed_hasbindings = old_hasbindings dict has_binding mkstr eval (dict.get st₁.vars name);
        pushed_isinternal = old_isinternal dict has_binding mkstr eval (dict.get st₁.vars name);
      }

      free₁ : NoSettor name st₁
      free₁ = NoSettor-same name st st₁ (mark-vars name st) free

      free₃ : NoSettor name (mark dict has_binding mkstr eval name st₂)
      free₃ =
          NoSettor-put name (mkvar has_binding defn) st₁ (mark dict has_binding mkstr eval name st₂)
            (mark-vars name st₂) free₁
