-- ===== src/Eval/Defines.antt =====
-- src/var.c, src/closure.c: `vardef`, and what names mean.
use desh.Common.{
  ℕ, Bool, true, false, Option, none, some, List, [], ◌∷◌, ◌≡◌, refl, sym, ◌∙◌, ap, subst, arith,
  inl, inr, ◌==◌, ==_iff, if◌then◌else◌, if_split, Bool-cases, Str, streq, streq→eq,
}
use desh.Glom.Terms.{Term, Outcome}
use desh.Glom.Walk.{Call}
use desh.Var.Dictionary.{Dictionary}
use desh.Var.State.{Var, validatevar, isexported}
use desh.Var.Assign.{mark, define, defined, is_nothing, mkvar}
use desh.Var.Scope.{NoSettor, callsettor-NoSettor, mark-vars}
use desh.Eval.Ends.{no_raw}
use desh.Eval.State.{Ref, Value, Binding, Extras, Sh, Outside, has_binding}
use desh.Eval.Bindings.{find, rebind, dict_defn, found_or, meaning, define_at, vardef}
use desh.Eval.Finds.{at, Finds, find-Finds, moved, find-rebind}

is_nothing-both :
    {W : Type 0} (dict : Dictionary (Var Value)) (eval : List Value → Call (Sh W dict) (List Value))
    (o w : Option (Var Value))
    → is_nothing dict has_binding Term.text eval o w ≡ true
    → (o ≡ none) × (w ≡ none)
is_nothing-both dict eval none none h = (refl, refl)
is_nothing-both dict eval none (some v) h = absurd (no_raw h)
is_nothing-both dict eval (some o) w h = absurd (no_raw h)

some_eq : (x y : Binding) → some x ≡ some y → x ≡ y
some_eq x y e = ap (λ o. elim o [ none ↦ x | some z ↦ z ]) e

module _ {W : Type 0} {dict : Dictionary (Var Value)} (outside : Outside W dict)
    (eval : List Value → Call (Sh W dict) (List Value)) where
  found_or_cong :
      (o : Option (ℕ × Binding)) (v w : Option (Var Value))
      → dict_defn dict outside v ≡ dict_defn dict outside w
      → found_or dict outside o v ≡ found_or dict outside o w
  found_or_cong none v w e = e
  found_or_cong (some (n, b)) v w e = refl

  dict_defn-defined :
      (defn : List Value)
      → dict_defn dict outside (defined dict has_binding Term.text eval defn) ≡ defn
  unfolding mkvar
  dict_defn-defined [] = refl
  dict_defn-defined (t ∷ ts) = refl

  defined-none :
      (defn : List Value) → defined dict has_binding Term.text eval defn ≡ none → defn ≡ []
  defined-none defn e = sym (dict_defn-defined defn) ∙ ap (λ o. dict_defn dict outside o) e

  -- The state in which `define` ends.
  define_end : Str → List Value → Sh W dict → Sh W dict
  define_end name defn st =
      let m = mark dict has_binding Term.text eval name st in
      if is_nothing dict has_binding Term.text eval (dict.get m.vars name)
        (defined dict has_binding Term.text eval defn)
      then m
      else record m { vars = dict.put m.vars name (defined dict has_binding Term.text eval defn) }

  define-NoSettor :
      (name : Str) (defn : List Value) (st : Sh W dict)
      → NoSettor dict has_binding Term.text eval name st
      → define dict has_binding Term.text eval name defn st
        ≡ (Outcome.value tt, define_end name defn st)
  unfolding define define_end
  define-NoSettor name defn st free =
      rw (callsettor-NoSettor dict has_binding Term.text eval name defn st free) refl

  define_end-rest :
      (name : Str) (defn : List Value) (st : Sh W dict) → (define_end name defn st).rest ≡ st.rest
  unfolding define_end mark
  define_end-rest name defn st =
      let m = mark dict has_binding Term.text eval name st in
      let d = defined dict has_binding Term.text eval defn in
      let e =
        if_split (λ (s : Sh W dict). s.rest ≡ st.rest) (isexported st.noexport name)
          (record st { isdirty = true }) st (λ h. refl) (λ h. refl) in
      if_split (λ (s : Sh W dict). s.rest ≡ st.rest)
        (is_nothing dict has_binding Term.text eval (dict.get m.vars name) d) m
        (record m { vars = dict.put m.vars name d }) (λ h. e) (λ h. e)

  define_end-get :
      (name : Str) (defn : List Value) (st : Sh W dict) (j : Str)
      → dict_defn dict outside (dict.get (define_end name defn st).vars j)
        ≡ (if streq j name then defn else dict_defn dict outside (dict.get st.vars j))
  unfolding define_end
  define_end-get name defn st j =
      if_split
        (λ (s : Sh W dict).
          dict_defn dict outside (dict.get s.vars j)
          ≡ (if streq j name then defn else dict_defn dict outside (dict.get st.vars j)))
        (is_nothing dict has_binding Term.text eval (dict.get m.vars name) d) m
        (record m { vars = dict.put m.vars name d })
        (λ h. kept (is_nothing-both dict eval (dict.get m.vars name) d h) (streq j name) refl)
        (λ h.
          ap (λ o. dict_defn dict outside o) (dict.get_put m.vars name d j) ∙ new (streq j name))
    where
      m : Sh W dict
      m = mark dict has_binding Term.text eval name st

      d : Option (Var Value)
      d = defined dict has_binding Term.text eval defn

      old : (i : Str) → dict.get m.vars i ≡ dict.get st.vars i
      old i = ap (λ v. dict.get v i) (mark-vars dict has_binding Term.text eval name st)

      kept :
          (dict.get m.vars name ≡ none) × (d ≡ none)
          → (c : Bool) → streq j name ≡ c
          → dict_defn dict outside (dict.get m.vars j)
            ≡ (if c then defn else dict_defn dict outside (dict.get st.vars j))
      kept (e, f) true s =
          ap (λ i. dict_defn dict outside (dict.get m.vars i)) (streq→eq j name s)
          ∙ ap (λ o. dict_defn dict outside o) e
          ∙ sym (defined-none defn f)
      kept (e, f) false s = ap (λ o. dict_defn dict outside o) (old j)

      new :
          (c : Bool)
          → dict_defn dict outside (if c then d else dict.get m.vars j)
            ≡ (if c then defn else dict_defn dict outside (dict.get st.vars j))
      new true = dict_defn-defined defn
      new false = ap (λ o. dict_defn dict outside o) (old j)

  -- What `vardef` leaves for each name.
  abbrev Defines : Str → Ref → List Value → Sh W dict → Sh W dict → Type 0
  Defines name b defn st st' =
      (j : Str)
      → meaning dict outside j b st' ≡ (if streq j name then defn else meaning dict outside j b st)

  in_dictionary :
      (name : Str) (b : Ref) (defn : List Value) (st : Sh W dict)
      → find (λ x. streq name x) st.rest.bindings b ≡ none
      → Defines name b defn st (define_end name defn st)
  unfolding meaning
  in_dictionary name b defn st free j =
      ap
        (λ (r : Extras W).
          found_or dict outside (find (λ x. streq j x) r.bindings b)
            (dict.get (define_end name defn st).vars j))
        (define_end-rest name defn st)
      ∙ cases (streq j name) refl
    where
      cases :
          (c : Bool)
          → streq j name ≡ c
          → found_or dict outside
              (find (λ x. streq j x) st.rest.bindings b)
              (dict.get (define_end name defn st).vars j)
            ≡ (if c
                then defn
                else found_or dict outside
                    (find (λ x. streq j x) st.rest.bindings b)
                    (dict.get st.vars j))
      cases true s =
          ap (λ o. found_or dict outside o (dict.get (define_end name defn st).vars j))
            (ap (λ i. find (λ x. streq i x) st.rest.bindings b) (streq→eq j name s) ∙ free)
          ∙ define_end-get name defn st j
          ∙ rw s refl
      cases false s =
          found_or_cong (find (λ x. streq j x) st.rest.bindings b) _ (dict.get st.vars j)
            (define_end-get name defn st j ∙ rw s refl)

  -- A definition of a binding, which other names do not see.
  in_binding :
      (name : Str) (b : Ref) (defn : List Value) (st : Sh W dict) (n : ℕ) (bd : Binding)
      → find (λ x. streq name x) st.rest.bindings b ≡ some (n, bd)
      → Defines name b defn st
          (record st { rest = record st.rest { bindings = rebind n defn st.rest.bindings } })
  unfolding meaning moved Finds
  in_binding name b defn st n bd there j =
      ap (λ o. found_or dict outside o (dict.get st.vars j))
        (find-rebind (λ x. streq j x) n defn st.rest.bindings b)
      ∙ cases (streq j name) refl
    where
      bs : List Binding
      bs = st.rest.bindings

      found : Option (ℕ × Binding)
      found = find (λ x. streq j x) bs b

      same_number : (n == n) ≡ true
      same_number = ground arith

      same_name : (i k l : Str) → streq i l ≡ true → streq k l ≡ true → streq i k ≡ true
      same_name i k l h g = subst (λ x. streq i x ≡ true) (sym (streq→eq k l g)) h

      fact : Finds (λ x. streq name x) bs (some (n, bd))
      fact = subst (Finds (λ x. streq name x) bs) there (find-Finds (λ x. streq name x) bs b)

      other :
          streq j name ≡ false
          → (o : Option (ℕ × Binding)) → Finds (λ x. streq j x) bs o
          → found_or dict outside (moved n defn o) (dict.get st.vars j)
            ≡ found_or dict outside o (dict.get st.vars j)
      other s none h = refl
      other s (some (i, x)) (t, l, e) = elim (Bool-cases (i == n)) [
        | inr c ↦ rw c refl
        | inl c ↦ absurd (
            no_raw (
              sym s
              ∙ same_name j name bd.name
                  (subst (λ y. streq j y.name ≡ true)
                    (some_eq x bd (sym e ∙ ap (at bs) ((==_iff i n).0 c) ∙ fact.2)) t)
                  (fact.0)))
      ]

      cases :
          (c : Bool)
          → streq j name ≡ c
          → found_or dict outside (moved n defn found) (dict.get st.vars j)
            ≡ (if c then defn else found_or dict outside found (dict.get st.vars j))
      cases true s =
          ap (λ o. found_or dict outside (moved n defn o) (dict.get st.vars j))
            (ap (λ i. find (λ x. streq i x) bs b) (streq→eq j name s) ∙ there)
          ∙ rw same_number refl
      cases false s = other s found (find-Finds (λ x. streq j x) bs b)

  -- If the name is valid and has no settor, `vardef` ends, and then each name means, from the same binding on, what it did, but that the name means the new list.
  pub vardef-Defines :
      (name : Str) (b : Ref) (defn : List Value) (st : Sh W dict)
      → validatevar name ≡ true
      → NoSettor dict has_binding Term.text eval name st
      → (st' : Sh W dict) × (vardef dict outside eval name b defn st ≡ (Outcome.value tt, st'))
        × ((j : Str)
            → meaning dict outside j b st'
              ≡ (if streq j name then defn else meaning dict outside j b st))
  unfolding vardef
  vardef-Defines name b defn st valid free =
      rw valid (go (find (λ x. streq name x) st.rest.bindings b) refl)
    where
      go :
          (o : Option (ℕ × Binding))
          → find (λ x. streq name x) st.rest.bindings b ≡ o
          → (st' : Sh W dict) × (define_at dict outside eval o name defn st
              ≡ (Outcome.value tt, st'))
            × Defines name b defn st st'
      go none e = (
        define_end name defn st,
        define-NoSettor name defn st free,
        in_dictionary name b defn st e,
      )
      go (some (n, bd)) e = (_, refl, in_binding name b defn st n bd e)
