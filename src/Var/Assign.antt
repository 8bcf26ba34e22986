-- ===== src/Var/Assign.antt =====
-- src/var.c: definitions of variables, and those that end with a scope. Evaluation and the test of a closure for bindings are parameters.
use desh.Common.{
  Bool, true, false, ◌||◌, Option, none, some, List, [], ◌∷◌, ◌++◌, if◌then◌else◌, Str, codes,
}
use desh.Glom.Terms.{Failure, Outcome}
use desh.Glom.Walk.{Call, after}
use desh.Var.Dictionary.{Dictionary}
use desh.Var.State.{Var, Push, Vars, specialvar, validatevar, isexported}

-- `hasbindings`
unfoldable pub hasbindings : {T : Type 0} → (T → Bool) → List T → Bool
hasbindings has_binding [] = false
hasbindings has_binding (t ∷ ts) = has_binding t || hasbindings has_binding ts

-- `mkvar`, and what `vardef` and `varpush` make of a variable that there is
unfoldable pub mkvar : {T : Type 0} → (T → Bool) → List T → Var T
unfolding hasbindings
mkvar has_binding defn = record {
  env = none;
  defn = defn;
  hasbindings_flag = hasbindings has_binding defn;
  isinternal_flag = false;
}

-- Why `validatevar` fails.
abbrev pub name_failure : Str → Failure
name_failure [] = Failure.zero_length_name
name_failure (c ∷ s) = Failure.illegal_name (c ∷ s)

module _ {T X : Type 0} (dict : Dictionary (Var T)) (has_binding : T → Bool) (mkstr : Str → T)
    (eval : List T → Call (Vars T dict X) (List T)) where
  abbrev pub defn_of : Option (Var T) → List T
  defn_of none = []
  defn_of (some v) = v.defn

  abbrev pub old_hasbindings : Option (Var T) → Bool
  old_hasbindings none = false
  old_hasbindings (some v) = v.hasbindings_flag

  abbrev pub old_isinternal : Option (Var T) → Bool
  old_isinternal none = false
  old_isinternal (some v) = v.isinternal_flag

  -- `if (isexported(name)) isdirty = TRUE`
  unfoldable pub mark : Str → Vars T dict X → Vars T dict X
  mark name st = if isexported st.noexport name then record st { isdirty = true } else st

  -- What `varpush` does behind `callsettor`.
  unfoldable pub push_var : Str → List T → Vars T dict X → Vars T dict X
  unfolding mkvar
  push_var name defn st =
      let old = dict.get st.vars name in
      let entry : Push T = record {
        name = name;
        pushed = defn_of old;
        pushed_hasbindings = old_hasbindings old;
        pushed_isinternal = old_isinternal old;
      } in
      record st {
        vars = dict.put st.vars name (some (mkvar has_binding defn));
        pushlist = entry ∷ st.pushlist;
      }

  -- What `varpop` puts in the place of the variable.
  abbrev pub restored : Push T → Option (Var T)
  restored p = elim p.pushed [
    | [] ↦ none
    | ◌∷◌ t ts ↦ some (record {
      env = none;
      defn = t ∷ ts;
      hasbindings_flag = p.pushed_hasbindings;
      isinternal_flag = p.pushed_isinternal;
    })
  ]

  abbrev pub is_nothing : Option (Var T) → Option (Var T) → Bool
  is_nothing none none = true
  is_nothing none (some v) = false
  is_nothing (some w) v = false

  -- What `varpop` does behind `callsettor`, with what that returns in `p`.
  unfoldable pub pop_var : Push T → Vars T dict X → Vars T dict X
  pop_var p st =
      if is_nothing (dict.get st.vars p.name) (restored p)
      then st
      else record st { vars = dict.put st.vars p.name (restored p) }

  -- `varpop` for a name that has no settor.
  abbrev pub pop_special_from : List (Push T) → Call (Vars T dict X) Unit
  pop_special_from [] st = (Outcome.null_read, st)
  pop_special_from (p ∷ rest) st =
      (Outcome.value tt, record (pop_var p (mark p.name st)) { pushlist = rest })

  unfoldable pub pop_special : Call (Vars T dict X) Unit
  unfolding mark pop_var
  pop_special st = pop_special_from st.pushlist st

  -- The settor `fn`, with the name in `$0`.
  unfoldable pub run_settor : Str → List T → List T → Call (Vars T dict X) (List T)
  unfolding push_var pop_special
  run_settor name fn defn st =
      after (eval (fn ++ defn) (push_var (codes "0") (mkstr name ∷ []) st))
        (λ list st'. after (pop_special st') (λ u st''. (Outcome.value list, st'')))

  -- `varlookup2(name1, name2, NULL)`
  unfoldable pub varlookup2 : Str → Str → Vars T dict X → List T
  varlookup2 name1 name2 st = defn_of (dict.get2 st.vars name1 name2)

  abbrev pub with_settor : List T → Str → List T → Call (Vars T dict X) (List T)
  with_settor [] name defn st = (Outcome.value defn, st)
  with_settor (f ∷ fs) name defn st = run_settor name (f ∷ fs) defn st

  unfoldable pub callsettor : Str → List T → Call (Vars T dict X) (List T)
  unfolding specialvar varlookup2 run_settor
  callsettor name defn st =
      if specialvar name
      then (Outcome.value defn, st)
      else with_settor (varlookup2 (codes "set-") name st) name defn st

  unfoldable pub varpush : Str → List T → Call (Vars T dict X) Unit
  unfolding validatevar mark callsettor push_var
  varpush name defn st =
      if validatevar name
      then after (callsettor name defn (mark name st))
          (λ list st'. (Outcome.value tt, push_var name list st'))
      else (Outcome.failed (name_failure name), st)

  -- `varpop` on the push `p`, which is the last one, with `rest` before it.
  unfoldable pub pop_push : Push T → List (Push T) → Call (Vars T dict X) Unit
  unfolding mark callsettor pop_var
  pop_push p rest st = after (callsettor p.name p.pushed (mark p.name st)) (λ list st'.
      (Outcome.value tt, record (pop_var (record p { pushed = list }) st') { pushlist = rest }))

  abbrev pub varpop_from : List (Push T) → Call (Vars T dict X) Unit
  varpop_from [] st = (Outcome.null_read, st)
  varpop_from (p ∷ rest) st = pop_push p rest st

  unfoldable pub varpop : Call (Vars T dict X) Unit
  unfolding pop_push
  varpop st = varpop_from st.pushlist st

  -- What `vardef` puts in the dictionary.
  abbrev pub defined : List T → Option (Var T)
  defined [] = none
  defined (t ∷ ts) = some (mkvar has_binding (t ∷ ts))

  -- `vardef` where no binding has the name.
  unfoldable pub define : Str → List T → Call (Vars T dict X) Unit
  unfolding mark callsettor mkvar
  define name defn st = after (callsettor name defn st) (λ list st'.
      let st'' = mark name st' in
      (
        Outcome.value tt,
        if is_nothing (dict.get st''.vars name) (defined list)
            then st''
            else record st'' { vars = dict.put st''.vars name (defined list) },
      ))
