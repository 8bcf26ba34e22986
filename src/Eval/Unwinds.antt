-- ===== src/Eval/Unwinds.antt =====
-- src/var.c: the scope of `varpush`, `varpop` and settors.
use desh.Common.{
  Bool, true, false, List, [], ◌∷◌, ◌++◌, ◌≡◌, refl, sym, ◌∙◌, ap, subst, if_split, Str, codes,
}
use desh.Glom.Terms.{Term, Outcome}
use desh.Glom.Walk.{Call, after}
use desh.Var.Dictionary.{Dictionary}
use desh.Var.State.{Var, Push, validatevar, specialvar, isexported}
use desh.Var.Assign.{
  mark, push_var, pop_var, pop_special, pop_push, run_settor, callsettor, varpush, varpop,
  varpop_from, pop_special_from, with_settor, name_failure, varlookup2, restored, is_nothing,
  define, defined,
}
use desh.Eval.State.{Value, Sh, has_binding}
use desh.Eval.Ends.{
  IsRaw, Same, Pushed, Ends, ends_value, ends_raw, IsNested, Keeps, Same-refl, Same-trans,
  Same-Held, Pushed-Held, Held-refl, Held-trans, IsNested-Held, under, first, strengthen,
  Pushed-Same,
}

pub name_failure-IsRaw : (name : Str) → IsRaw (name_failure name)
unfolding IsRaw
name_failure-IsRaw [] = tt
name_failure-IsRaw (c ∷ s) = tt

module _ {W : Type 0} {dict : Dictionary (Var Value)}
    (eval : List Value → Call (Sh W dict) (List Value))
    (keeps : (list : List Value) → Keeps false (eval list)) where
  mark-Same : (name : Str) (s : Sh W dict) → Same s (mark dict has_binding Term.text eval name s)
  unfolding mark
  mark-Same name s =
      if_split (λ t. Same s t) (isexported s.noexport name) (record s { isdirty = true }) s
        (λ h. record { pushes = refl; links = refl; depth = refl }) (λ h. Same-refl s)

  pop_var-Same :
      (p : Push Value) (s : Sh W dict) → Same s (pop_var dict has_binding Term.text eval p s)
  unfolding pop_var
  pop_var-Same p s =
      let r = restored dict has_binding Term.text eval p in
      if_split (λ t. Same s t)
        (is_nothing dict has_binding Term.text eval (dict.get s.vars p.name) r) s
        (record s { vars = dict.put s.vars p.name r }) (λ h. Same-refl s)
        (λ h. record { pushes = refl; links = refl; depth = refl })

  push_var-Pushed :
      (name : Str) (defn : List Value) (s : Sh W dict)
      → Pushed s (push_var dict has_binding Term.text eval name defn s)
  unfolding push_var
  push_var-Pushed name defn s = record { top = _; pushes = refl; links = refl; depth = refl }

  -- The state behind a pop.
  popped-Same :
      (s t u : Sh W dict) (ps : List (Push Value))
      → Pushed s t
      → Same t u
      → ps ≡ s.pushlist
      → Same s (record u { pushlist = ps })
  popped-Same s t u ps g h e = record {
    pushes = e;
    links = h.links ∙ g.links;
    depth = h.depth ∙ g.depth;
  }

  pop_special-Ends :
      (raw : Bool) (s t : Sh W dict)
      → Pushed s t
      → Ends raw s (pop_special dict has_binding Term.text eval t)
  unfolding pop_special
  pop_special-Ends raw s t g =
      subst (λ ps. Ends raw s (pop_special_from dict has_binding Term.text eval ps t))
        (sym g.pushes) (ends_value (popped-Same s t _ s.pushlist g (both g.top) refl))
    where
      both :
          (p : Push Value)
          → Same t (
              pop_var dict has_binding Term.text eval p
                (mark dict has_binding Term.text eval p.name t))
      both p =
          Same-trans t (mark dict has_binding Term.text eval p.name t) _ (mark-Same p.name t)
            (pop_var-Same p (mark dict has_binding Term.text eval p.name t))

  run_settor-Keeps :
      (raw : Bool) (name : Str) (fn defn : List Value)
      → Keeps raw (run_settor dict has_binding Term.text eval name fn defn)
  unfolding run_settor
  run_settor-Keeps raw name fn defn s n =
      let t = push_var dict has_binding Term.text eval (codes "0") (Term.text name ∷ []) s in
      let g = push_var-Pushed (codes "0") (Term.text name ∷ []) s in
      let h = Pushed-Held s t g in
      under raw s t (eval (fn ++ defn) t) _ h
        (strengthen raw t (eval (fn ++ defn) t) (keeps (fn ++ defn) t (IsNested-Held s t h n)))
        (λ list u same.
          under raw s s (pop_special dict has_binding Term.text eval u) _ (Held-refl s)
            (pop_special-Ends raw s u (Pushed-Same s t u g same)) (λ x v end. ends_value end))

  with_settor-Keeps :
      (raw : Bool) (fn : List Value) (name : Str) (defn : List Value)
      → Keeps raw (with_settor dict has_binding Term.text eval fn name defn)
  with_settor-Keeps raw [] name defn s n = ends_value (Same-refl s)
  with_settor-Keeps raw (f ∷ fs) name defn s n = run_settor-Keeps raw name (f ∷ fs) defn s n

  pub callsettor-Keeps :
      (raw : Bool) (name : Str) (defn : List Value)
      → Keeps raw (callsettor dict has_binding Term.text eval name defn)
  unfolding callsettor
  callsettor-Keeps raw name defn s n =
      let fn = varlookup2 dict has_binding Term.text eval (codes "set-") name s in
      if_split (Ends raw s) (specialvar name) (Outcome.value defn, s)
        (with_settor dict has_binding Term.text eval fn name defn s) (λ h. ends_value (Same-refl s))
        (λ h. with_settor-Keeps raw fn name defn s n)

  -- `varpush`, and what follows it.
  pub varpush-then :
      (name : Str) (defn : List Value) (s : Sh W dict) {C : Type 0} (f : Unit → Call (Sh W dict) C)
      → IsNested s
      → ((u : Sh W dict) → Pushed s u → Ends true s (f tt u))
      → Ends true s (after (varpush dict has_binding Term.text eval name defn s) f)
  unfolding varpush
  varpush-then name defn s f n next =
      if_split (λ (r : Outcome Unit × Sh W dict). Ends true s (after r f)) (validatevar name) _
        (Outcome.failed (name_failure name), s)
        (λ h.
          let t = mark dict has_binding Term.text eval name s in
          let same = mark-Same name s in
          let held = Same-Held s t same in
          first true s t (callsettor dict has_binding Term.text eval name defn t) _ f held
            (callsettor-Keeps true name defn t (IsNested-Held s t held n))
            (λ list u same'.
              next (push_var dict has_binding Term.text eval name list u)
                (above s u _ (Same-trans s t u same same') (push_var-Pushed name list u))))
        (λ h. ends_raw refl (name_failure-IsRaw name) (Held-refl s))
    where
      above : (s t u : Sh W dict) → Same s t → Pushed t u → Pushed s u
      above s t u g h = record {
        top = h.top;
        pushes = h.pushes ∙ ap (λ ps. h.top ∷ ps) g.pushes;
        links = h.links ∙ g.links;
        depth = h.depth ∙ g.depth;
      }

  pop_push-Ends :
      (raw : Bool) (s t : Sh W dict) (g : Pushed s t)
      → IsNested s
      → Ends raw s (pop_push dict has_binding Term.text eval g.top s.pushlist t)
  unfolding pop_push
  pop_push-Ends raw s t g n =
      let p = g.top in
      let m = mark dict has_binding Term.text eval p.name t in
      let held = Held-trans s t m (Pushed-Held s t g) (Same-Held t m (mark-Same p.name t)) in
      under raw s m (callsettor dict has_binding Term.text eval p.name p.pushed m) _ held
        (callsettor-Keeps raw p.name p.pushed m (IsNested-Held s m held n))
        (λ list u same.
          let q = record p { pushed = list } in
          ends_value (
            popped-Same s t (pop_var dict has_binding Term.text eval q u) s.pushlist g
              (Same-trans t m _ (mark-Same p.name t) (Same-trans m u _ same (pop_var-Same q u)))
              refl))

  pub varpop-Ends :
      (raw : Bool) (s t : Sh W dict)
      → Pushed s t
      → IsNested s
      → Ends raw s (varpop dict has_binding Term.text eval t)
  unfolding varpop
  varpop-Ends raw s t g n =
      subst (λ ps. Ends raw s (varpop_from dict has_binding Term.text eval ps t)) (sym g.pushes)
        (pop_push-Ends raw s t g n)

  pub define-Keeps :
      (raw : Bool) (name : Str) (defn : List Value)
      → Keeps raw (define dict has_binding Term.text eval name defn)
  unfolding define
  define-Keeps raw name defn s n =
      under raw s s (callsettor dict has_binding Term.text eval name defn s) _ (Held-refl s)
        (callsettor-Keeps raw name defn s n)
        (λ list u same.
          let m = mark dict has_binding Term.text eval name u in
          let d = defined dict has_binding Term.text eval list in
          let same' = Same-trans s u m same (mark-Same name u) in
          ends_value (
            if_split (λ t. Same s t)
              (is_nothing dict has_binding Term.text eval (dict.get m.vars name) d) m
              (record m { vars = dict.put m.vars name d }) (λ h. same')
              (λ h. record { pushes = same'.pushes; links = same'.links; depth = same'.depth })))
