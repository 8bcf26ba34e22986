-- ===== src/Eval/Bindings.antt =====
-- src/closure.c, src/var.c: bindings, and the look-up and definition of a variable among them.
use desh.Common.{
  ◌&&◌, ℕ, zero, suc, Bool, true, false, Option, none, some, List, [], ◌∷◌, ◌++◌, ◌==◌,
  if◌then◌else◌, Str, codes, streq, length,
}
use desh.Glom.Terms.{ℤ, Term, Outcome}
use desh.Glom.Walk.{Call, after}
use desh.Var.Dictionary.{Dictionary}
use desh.Var.State.{Var, iscounting, validatevar}
use desh.Var.Assign.{name_failure, define}
use desh.Eval.State.{Ref, Value, Binding, Sh, Outside, has_binding}

-- The loop `for (; bp != NULL; bp = bp->next)` up to the first binding whose name passes the test.
-- The list goes down to the binding that `bp` points to, which has as many older ones as its number.
unfoldable pub find : (Str → Bool) → List Binding → Ref → Option (ℕ × Binding)
find test bs none = none
find test [] (some n) = none
find test (b ∷ bs) (some n) =
    let rest = find test bs (if length bs == n then b.next else some n) in
    if (length bs == n) && test b.name then some (n, b) else rest

-- `binding->defn = defn` for the binding `n`, if `b` with the number `i` is that.
abbrev pub write : ℕ → List Value → ℕ → Binding → Binding
write n defn i b = record b { defn = if i == n then defn else b.defn }

unfoldable pub rebind : ℕ → List Value → List Binding → List Binding
rebind n defn [] = []
rebind n defn (b ∷ bs) = write n defn (length bs) b ∷ rebind n defn bs

-- The names and definitions of a chain of bindings.
unfoldable pub chain : List Binding → Ref → List (Str × List Value)
chain bs none = []
chain [] (some n) = []
chain (b ∷ bs) (some n) =
    let rest = chain bs (if length bs == n then b.next else some n) in
    if length bs == n then (b.name, b.defn) ∷ rest else rest

-- `nth`
unfoldable pub nth : List Value → ℤ → List Value
nth list (ℤ.negsuc n) = []
nth list (ℤ.pos zero) = []
nth [] (ℤ.pos (suc n)) = []
nth (t ∷ list) (ℤ.pos (suc zero)) = t ∷ []
nth (t ∷ list) (ℤ.pos (suc (suc n))) = nth list (ℤ.pos (suc n))

-- A value for each name; the last one has all that are left.
unfoldable pub share : List Str → List Value → List (Str × List Value)
share [] values = []
share (x ∷ []) values = (x, values) ∷ []
share (x ∷ y ∷ names) [] = (x, []) ∷ share (y ∷ names) []
share (x ∷ y ∷ names) (v ∷ []) = (x, v ∷ []) ∷ share (y ∷ names) []
share (x ∷ y ∷ names) (v ∷ w ∷ values) = (x, v ∷ []) ∷ share (y ∷ names) (w ∷ values)

-- `isabsolute`
unfoldable pub isabsolute : Str → Bool
isabsolute [] = false
isabsolute (c ∷ []) = c == b'/'
isabsolute (c ∷ d ∷ []) = if c == b'/' then true else if c == b'.' then d == b'/' else false
isabsolute (c ∷ d ∷ e ∷ s) =
    if c == b'/'
    then true
    else if c == b'.'
    then if d == b'/' then true else if d == b'.' then e == b'/' else false
    else false

module _ {W : Type 0} (dict : Dictionary (Var Value)) (outside : Outside W dict) where
  abbrev pub new_binding : Str → List Value → Ref → Sh W dict → Ref × Sh W dict
  new_binding name defn next st =
      let b : Binding = record { name = name; defn = defn; next = next } in
      let bs = st.rest.bindings in
      (some (length bs), record st { rest = record st.rest { bindings = b ∷ bs } })

  unfoldable pub mkbinding : Str → List Value → Ref → Call (Sh W dict) Ref
  mkbinding name defn next st =
      if validatevar name
      then (let (b, st') = new_binding name defn next st in (Outcome.value b, st'))
      else (Outcome.failed (name_failure name), st)

  -- `mkbinding` for each of the names.
  unfoldable pub mkbindings : List (Str × List Value) → Ref → Call (Sh W dict) Ref
  unfolding mkbinding
  mkbindings [] binding st = (Outcome.value binding, st)
  mkbindings ((name, defn) ∷ shares) binding st =
      after (mkbinding name defn binding st) (λ b. mkbindings shares b)

  abbrev pub dict_defn : Option (Var Value) → List Value
  dict_defn none = []
  dict_defn (some v) = v.defn

  -- The definition that a loop has found, or that of the dictionary.
  abbrev pub found_or : Option (ℕ × Binding) → Option (Var Value) → List Value
  found_or none v = dict_defn v
  found_or (some (n, b)) v = b.defn

  -- What a name means, from a binding on.
  unfoldable pub meaning : Str → Ref → Sh W dict → List Value
  unfolding find
  meaning name bp st =
      found_or (find (λ x. streq name x) st.rest.bindings bp) (dict.get st.vars name)

  -- `varlookup`; a number asks for `*`.
  unfoldable pub varlookup : Str → Ref → Call (Sh W dict) (List Value)
  unfolding meaning nth
  varlookup name bp st =
      if iscounting name
      then (Outcome.value (nth (meaning (codes "*") bp st) (outside.counting name)), st)
      else if validatevar name
      then (Outcome.value (meaning name bp st), st)
      else (Outcome.failed (name_failure name), st)

  -- `varlookup2`
  unfoldable pub lookup_function : Str → Str → Ref → Sh W dict → List Value
  unfolding find
  lookup_function name1 name2 bp st =
      found_or (find (λ x. streq x (name1 ++ name2)) st.rest.bindings bp)
        (dict.get2 st.vars name1 name2)

  module _ (eval : List Value → Call (Sh W dict) (List Value)) where
    -- The end of `vardef`, with the binding of the name, if there is one.
    abbrev pub define_at : Option (ℕ × Binding) → Str → List Value → Call (Sh W dict) Unit
    define_at none name defn st = define dict has_binding Term.text eval name defn st
    define_at (some (n, b)) name defn st = (
      Outcome.value tt,
      record st { rest = record st.rest { bindings = rebind n defn st.rest.bindings } },
    )

    unfoldable pub vardef : Str → Ref → List Value → Call (Sh W dict) Unit
    unfolding find rebind define
    vardef name binding defn st =
        if validatevar name
        then define_at (find (λ x. streq name x) st.rest.bindings binding) name defn st
        else (Outcome.failed (name_failure name), st)

    -- `vardef` for each of the names.
    unfoldable pub vardef_all : List (Str × List Value) → Ref → Call (Sh W dict) Unit
    unfolding vardef
    vardef_all [] binding st = (Outcome.value tt, st)
    vardef_all ((name, defn) ∷ shares) binding st =
        after (vardef name binding defn st) (λ u. vardef_all shares binding)
