-- ===== src/Eval/Ends.antt =====
-- How a call of the evaluator ends: what it leaves of the list of pushes, the handlers and the depth.
use desh.Common.{
  ℕ, Bool, true, false, List, [], ◌∷◌, ◌≡◌, refl, sym, ◌∙◌, ap, subst, ◌⊎◌, inl, inr, length, ◌<◌,
  ◌≤◌, arith,
}
use desh.Glom.Terms.{Failure, Outcome}
use desh.Glom.Walk.{Call, after}
use desh.Var.Dictionary.{Dictionary}
use desh.Var.State.{Var, Push}
use desh.Eval.State.{Value, Handler, Sh}

-- The second list ends with the first one.
pub data Suffix : List (Push Value) → List (Push Value) → Type 0 where
  whole : {ps : List (Push Value)} → Suffix ps ps
  below : {p : Push Value} {ps qs : List (Push Value)} → Suffix ps qs → Suffix ps (p ∷ qs)

pub Suffix_trans : (ps qs rs : List (Push Value)) → Suffix ps qs → Suffix qs rs → Suffix ps rs
Suffix_trans ps qs rs h whole = h
Suffix_trans ps qs (r ∷ rs) h (below g) = below (Suffix_trans ps qs rs h g)

pub length-Suffix : (ps qs : List (Push Value)) → Suffix ps qs → length ps ≤ length qs
length-Suffix ps qs whole = omega arith
length-Suffix ps (q ∷ qs) (below g) = omega (arith, length-Suffix ps qs g)

-- Each handler has a part of the pushes of those inside it.
unfoldable pub Nested : List Handler → List (Push Value) → Type 0
Nested [] ps = Unit
Nested (h ∷ hs) ps = Suffix h.pushlist ps × Nested hs h.pushlist

pub Nested-Suffix :
    (hs : List Handler) (ps qs : List (Push Value)) → Suffix ps qs → Nested hs ps → Nested hs qs
unfolding Nested
Nested-Suffix [] ps qs g n = tt
Nested-Suffix (h ∷ hs) ps qs g (s, n) = (Suffix_trans h.pushlist ps qs s g, n)

-- The failures that are calls of `fail`.
unfoldable pub IsRaw : Failure → Type 0
IsRaw Failure.jump = ⊥
IsRaw Failure.out_of_fuel = ⊥
IsRaw (Failure.exit n) = ⊥
IsRaw (Failure.bad_subscript s) = Unit
IsRaw Failure.null_name = Unit
IsRaw Failure.multi_word_name = Unit
IsRaw (Failure.bad_node k) = Unit
IsRaw Failure.zero_length_name = Unit
IsRaw Failure.too_deep = Unit
IsRaw (Failure.illegal_name s) = Unit
IsRaw (Failure.null_variable s) = Unit
IsRaw (Failure.no_pathsearch s) = Unit
IsRaw (Failure.not_executable s t) = Unit

pub no_raw : false ≡ true → ⊥
no_raw h = ground arith

module _ {W : Type 0} {dict : Dictionary (Var Value)} where
  pub record Same (s s' : Sh W dict) : Type 0 where
    pub pushes : s'.pushlist ≡ s.pushlist
    pub links : s'.rest.handlers ≡ s.rest.handlers
    pub depth : s'.rest.evaldepth ≡ s.rest.evaldepth

  -- The same handlers, and at least the same pushes.
  pub record Held (s s' : Sh W dict) : Type 0 where
    pub more : Suffix s.pushlist s'.pushlist
    pub links : s'.rest.handlers ≡ s.rest.handlers

  -- One more push.
  pub record Pushed (s s' : Sh W dict) : Type 0 where
    pub top : Push Value
    pub pushes : s'.pushlist ≡ top ∷ s.pushlist
    pub links : s'.rest.handlers ≡ s.rest.handlers
    pub depth : s'.rest.evaldepth ≡ s.rest.evaldepth

  pub record LandsAt (h : Handler) (up : List Handler) (s' : Sh W dict) : Type 0 where
    pub pushes : s'.pushlist ≡ h.pushlist
    pub links : s'.rest.handlers ≡ up
    pub depth : s'.rest.evaldepth ≡ h.evaldepth

  -- The jump goes to one of the handlers, which is popped with those inside it; the pushes and the
  -- depth are those of that handler.
  unfoldable pub Reaches : List Handler → Sh W dict → Type 0
  Reaches [] s' = ⊥
  Reaches (h ∷ hs) s' = LandsAt h hs s' ⊎ Reaches hs s'

  -- With a value in the same scope, at a handler, or with the process or the fuel. With `raw`, it
  -- may also stand at a call of `fail`.
  pub data Ends (raw : Bool) (s : Sh W dict) {A : Type 0} : Outcome A × Sh W dict → Type 0 where
    ends_value : {a : A} {s' : Sh W dict} → Same s s' → Ends raw s (Outcome.value a, s')
    ends_jump :
        {s' : Sh W dict} → Reaches s.rest.handlers s' → Ends raw s (Outcome.failed Failure.jump, s')
    ends_raw :
        {f : Failure} {s' : Sh W dict}
        → raw ≡ true
        → IsRaw f
        → Held s s'
        → Ends raw s (Outcome.failed f, s')
    ends_exit : {n : ℕ} {s' : Sh W dict} → Ends raw s (Outcome.failed (Failure.exit n), s')
    ends_fuel : {s' : Sh W dict} → Ends raw s (Outcome.failed Failure.out_of_fuel, s')
    ends_null : {s' : Sh W dict} → Ends raw s (Outcome.null_read, s')

  -- The pushes of each handler are still there.
  unfoldable pub IsNested : Sh W dict → Type 0
  IsNested s = Nested s.rest.handlers s.pushlist

  abbrev pub Keeps : Bool → {A : Type 0} → Call (Sh W dict) A → Type 0
  Keeps raw call = (s : Sh W dict) → IsNested s → Ends raw s (call s)

  pub Same-refl : (s : Sh W dict) → Same s s
  Same-refl s = record { pushes = refl; links = refl; depth = refl }

  pub Same-trans : (s t u : Sh W dict) → Same s t → Same t u → Same s u
  Same-trans s t u g h = record {
    pushes = h.pushes ∙ g.pushes;
    links = h.links ∙ g.links;
    depth = h.depth ∙ g.depth;
  }

  pub Same-Held : (s t : Sh W dict) → Same s t → Held s t
  Same-Held s t g = record {
    more = subst (Suffix s.pushlist) (sym g.pushes) whole;
    links = g.links;
  }

  pub Pushed-Held : (s t : Sh W dict) → Pushed s t → Held s t
  Pushed-Held s t g = record {
    more = subst (Suffix s.pushlist) (sym g.pushes) (below whole);
    links = g.links;
  }

  pub Pushed-Same : (s t u : Sh W dict) → Pushed s t → Same t u → Pushed s u
  Pushed-Same s t u g h = record {
    top = g.top;
    pushes = h.pushes ∙ g.pushes;
    links = h.links ∙ g.links;
    depth = h.depth ∙ g.depth;
  }

  pub Held-refl : (s : Sh W dict) → Held s s
  Held-refl s = Same-Held s s (Same-refl s)

  pub Held-trans : (s t u : Sh W dict) → Held s t → Held t u → Held s u
  Held-trans s t u g h = record {
    more = Suffix_trans s.pushlist t.pushlist u.pushlist g.more h.more;
    links = h.links ∙ g.links;
  }

  pub IsNested-Held : (s t : Sh W dict) → Held s t → IsNested s → IsNested t
  unfolding IsNested
  IsNested-Held s t g n =
      subst (λ hs. Nested hs t.pushlist) (sym g.links)
        (Nested-Suffix s.rest.handlers s.pushlist t.pushlist g.more n)

  pub Reaches-length :
      (hs : List Handler) (s : Sh W dict) → Reaches hs s → length s.rest.handlers < length hs
  unfolding Reaches
  Reaches-length [] s h = absurd h
  Reaches-length (h ∷ hs) s (inl l) = omega (arith, ap length l.links)
  Reaches-length (h ∷ hs) s (inr r) = omega (arith, Reaches-length hs s r)

  -- A call from a state that holds more pushes, and what follows it.
  pub under :
      (raw : Bool) (s t : Sh W dict) {A C : Type 0} (r : Outcome A × Sh W dict)
      (f : A → Call (Sh W dict) C)
      → Held s t
      → Ends raw t r
      → ((a : A) (u : Sh W dict) → Same t u → Ends raw s (f a u))
      → Ends raw s (after r f)
  under raw s t r f g (ends_value {a} {s' = u} same) next = next a u same
  under raw s t r f g (ends_jump {s' = u} l) next = ends_jump (subst (λ hs. Reaches hs u) g.links l)
  under raw s t r f g (ends_raw {f = e} {s' = u} b i h) next = ends_raw b i (Held-trans s t u g h)
  under raw s t r f g ends_exit next = ends_exit
  under raw s t r f g ends_fuel next = ends_fuel
  under raw s t r f g ends_null next = ends_null

  -- A call in a sequence of two calls and more.
  pub first :
      (raw : Bool) (s t : Sh W dict) {A B C : Type 0} (r : Outcome A × Sh W dict)
      (g : A → Call (Sh W dict) B) (f : B → Call (Sh W dict) C)
      → Held s t
      → Ends raw t r
      → ((a : A) (u : Sh W dict) → Same t u → Ends raw s (after (g a u) f))
      → Ends raw s (after (after r g) f)
  first raw s t r g f h (ends_value {a} {s' = u} same) next = next a u same
  first raw s t r g f h (ends_jump {s' = u} l) next =
      ends_jump (subst (λ hs. Reaches hs u) h.links l)
  first raw s t r g f h (ends_raw {f = e} {s' = u} b i k) next = ends_raw b i (Held-trans s t u h k)
  first raw s t r g f h ends_exit next = ends_exit
  first raw s t r g f h ends_fuel next = ends_fuel
  first raw s t r g f h ends_null next = ends_null

  pub from_Same :
      (raw : Bool) (s t : Sh W dict) {A : Type 0} (r : Outcome A × Sh W dict)
      → Same s t
      → Ends raw t r
      → Ends raw s r
  from_Same raw s t r g (ends_value {a} {s' = u} same) = ends_value (Same-trans s t u g same)
  from_Same raw s t r g (ends_jump {s' = u} l) = ends_jump (subst (λ hs. Reaches hs u) g.links l)
  from_Same raw s t r g (ends_raw {f = e} {s' = u} b i k) =
      ends_raw b i (Held-trans s t u (Same-Held s t g) k)
  from_Same raw s t r g ends_exit = ends_exit
  from_Same raw s t r g ends_fuel = ends_fuel
  from_Same raw s t r g ends_null = ends_null

  -- Two calls one after the other.
  pub bind :
      (raw : Bool) {A C : Type 0} (call : Call (Sh W dict) A) (f : A → Call (Sh W dict) C)
      → Keeps raw call
      → ((a : A) → Keeps raw (f a))
      → Keeps raw (λ s. after (call s) f)
  bind raw call f k next s n = under raw s s (call s) f (Held-refl s) (k s n) (λ a u same.
      from_Same raw s u (f a u) same (next a u (IsNested-Held s u (Same-Held s u same) n)))

  pub give-Keeps : (raw : Bool) {A : Type 0} (a : A) → Keeps raw {A = A} (λ s. (Outcome.value a, s))
  give-Keeps raw a s n = ends_value (Same-refl s)

  pub null-Keeps : (raw : Bool) {A : Type 0} → Keeps raw {A = A} (λ s. (Outcome.null_read, s))
  null-Keeps raw s n = ends_null

  pub fail-Keeps :
      {A : Type 0} (f : Failure) → IsRaw f → Keeps true {A = A} (λ s. (Outcome.failed f, s))
  fail-Keeps f i s n = ends_raw refl i (Held-refl s)

  -- A call that ends with a value or at a handler is one that may also fail.
  pub strengthen :
      (raw : Bool) (s : Sh W dict) {A : Type 0} (r : Outcome A × Sh W dict)
      → Ends false s r
      → Ends raw s r
  strengthen raw s r (ends_value g) = ends_value g
  strengthen raw s r (ends_jump l) = ends_jump l
  strengthen raw s r (ends_raw b i h) = absurd (no_raw b)
  strengthen raw s r ends_exit = ends_exit
  strengthen raw s r ends_fuel = ends_fuel
  strengthen raw s r ends_null = ends_null

  pub weaken :
      (raw : Bool) {A : Type 0} (call : Call (Sh W dict) A) → Keeps false call → Keeps raw call
  weaken raw call k s n = strengthen raw s (call s) (k s n)
