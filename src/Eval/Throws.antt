-- ===== src/Eval/Throws.antt =====
-- src/except.c: the scope in which `throw_exception` and `fail` land.
use desh.Common.{
  ℕ, Bool, true, false, Option, none, some, List, [], ◌∷◌, ◌≡◌, refl, sym, ◌∙◌, ap, subst, inl, inr,
  length, ◌≤◌, ◌-◌, suc, arith, ◌==◌, ==_iff, if_split, Str,
}
use desh.Glom.Terms.{Tree, Failure, Outcome}
use desh.Glom.Walk.{Call, after}
use desh.Var.Dictionary.{Dictionary}
use desh.Var.State.{Var, Push}
use desh.Eval.State.{Ref, Value, Handler, Flags, no_flags, Sh, Rec, Outside}
use desh.Eval.Throw.{
  eval_alone, pop, unwind, set_handlers, land, throw_to, throw_exception, reason, error_list,
  fail_in, throwing,
}
use desh.Eval.Ends.{
  Suffix, whole, below, length-Suffix, Nested, IsRaw, Held, Pushed, Reaches, Ends, ends_value,
  ends_jump, ends_raw, ends_exit, ends_fuel, ends_null, IsNested, Keeps, Held-refl, IsNested-Held,
  under, no_raw,
}
use desh.Eval.Unwinds.{varpop-Ends}

not_equal : (m n : ℕ) → (m == n) ≡ false → m ≡ n → ⊥
not_equal m n t e = ground arith

pub are_equal : (m n : ℕ) → m ≡ n → (m == n) ≡ true
are_equal m n e = ground arith

-- Each call of `fail` has a message.
reason-IsRaw :
    (isprint : ℕ → Bool) (f : Failure) → IsRaw f → (why : Str × Str) × (reason isprint f ≡ some why)
unfolding IsRaw reason
reason-IsRaw isprint Failure.jump i = absurd i
reason-IsRaw isprint Failure.out_of_fuel i = absurd i
reason-IsRaw isprint (Failure.exit n) i = absurd i
reason-IsRaw isprint (Failure.bad_subscript s) i = (_, refl)
reason-IsRaw isprint Failure.null_name i = (_, refl)
reason-IsRaw isprint Failure.multi_word_name i = (_, refl)
reason-IsRaw isprint (Failure.bad_node k) i = (_, refl)
reason-IsRaw isprint Failure.zero_length_name i = (_, refl)
reason-IsRaw isprint Failure.too_deep i = (_, refl)
reason-IsRaw isprint (Failure.illegal_name s) i = (_, refl)
reason-IsRaw isprint (Failure.null_variable s) i = (_, refl)
reason-IsRaw isprint (Failure.no_pathsearch s) i = (_, refl)
reason-IsRaw isprint (Failure.not_executable s t) i = (_, refl)

module _ {W : Type 0} {dict : Dictionary (Var Value)} where
  -- The state after `--evaldepth`.
  unfoldable pub lowered : Sh W dict → Sh W dict
  lowered s = record s { rest = record s.rest { evaldepth = s.rest.evaldepth - 1 } }

  -- What the functions that call each other keep. From `restart` on, the depth is one less at the end.
  pub record IsKeeping (rec : Rec W dict) : Type 0 where
    pub eval_keeps :
        (list : List Value) (b : Ref) (flags : Flags) → Keeps false (rec.eval list b flags)
    pub walk_keeps : (t : Tree) (b : Ref) (flags : Flags) → Keeps false (rec.walk t b flags)
    pub restart_keeps :
        (funcname : Option Str) (list : List Value) (b : Ref) (flags : Flags) (s : Sh W dict)
        → IsNested s
        → Ends false (lowered s) (rec.restart funcname list b flags s)

module _ {W : Type 0} {dict : Dictionary (Var Value)} (outside : Outside W dict) (rec : Rec W dict)
    (keeping : IsKeeping rec) where
  pub pop-Ends :
      (raw : Bool) (s t : Sh W dict) → Pushed s t → IsNested s → Ends raw s (pop dict outside rec t)
  pop-Ends =
      varpop-Ends (eval_alone dict outside rec) (λ list. keeping.eval_keeps list none no_flags)

  -- The loop pops down to the pushes of the handler, as the state `b` has them.
  unwind-Ends :
      (qs ps : List (Push Value)) (h : Handler) (b s : Sh W dict)
      → Suffix qs ps
      → s.pushlist ≡ ps
      → b.pushlist ≡ qs
      → h.pushlist ≡ qs
      → s.rest.handlers ≡ b.rest.handlers
      → s.rest.evaldepth ≡ b.rest.evaldepth
      → IsNested b
      → Ends false b (unwind dict outside rec ps h s)
  unfolding unwind
  unwind-Ends qs [] h b s whole e at for chain depth n =
      if_split (Ends false b) (length s.pushlist == length h.pushlist) (Outcome.value tt, s)
        (Outcome.null_read, s)
        (λ t. ends_value (record { pushes = e ∙ sym at; links = chain; depth = depth }))
        (λ t. ends_null)
  unwind-Ends qs (p ∷ ps) h b s whole e at for chain depth n =
      if_split (Ends false b) (length s.pushlist == length h.pushlist) (Outcome.value tt, s)
        (after (pop dict outside rec s) (λ u. unwind dict outside rec ps h))
        (λ t. ends_value (record { pushes = e ∙ sym at; links = chain; depth = depth }))
        (λ t.
          absurd (not_equal (length s.pushlist) (length h.pushlist) t (ap length (e ∙ sym for))))
  unwind-Ends qs (p ∷ ps) h b s (below g) e at for chain depth n =
      if_split (Ends false b) (length s.pushlist == length h.pushlist) (Outcome.value tt, s)
        (after (pop dict outside rec s) (λ u. unwind dict outside rec ps h))
        (λ t. absurd (
          longer (length-Suffix qs ps g) (ap length e) (ap length for)
            ((==_iff (length s.pushlist) (length h.pushlist)).0 t)))
        (λ t.
          under false b c (pop dict outside rec s) (λ u. unwind dict outside rec ps h) held
            (pop-Ends false c s pushed (IsNested-Held b c held n))
            (λ x u same.
              unwind-Ends qs ps h b u g same.pushes at for (same.links ∙ chain) (same.depth ∙ depth)
                n))
    where
      c : Sh W dict
      c = record s { pushlist = ps }

      held : Held b c
      held = record { more = subst (λ xs. Suffix xs ps) (sym at) g; links = chain }

      pushed : Pushed c s
      pushed = record { top = p; pushes = e; links = refl; depth = refl }

      longer : {m n k l : ℕ} → m ≤ n → k ≡ suc n → l ≡ m → k ≡ l → ⊥
      longer a b c d = omega arith

  throw_to-Ends :
      (raw : Bool) (hs : List Handler) (e : List Value) (s t : Sh W dict) {A : Type 0}
      → t.rest.handlers ≡ hs
      → s.rest.handlers ≡ hs
      → Nested hs t.pushlist
      → Ends raw s {A = A} (throw_to dict outside rec hs e t)
  unfolding Nested Reaches IsNested
  throw_to-Ends raw [] e s t et es n = ends_null
  throw_to-Ends raw (h ∷ up) e s t {A = A} et es (g, n) =
      go (unwind dict outside rec t.pushlist h (set_handlers dict outside rec up t)) (
        unwind-Ends h.pushlist t.pushlist h b (set_handlers dict outside rec up t) g refl refl refl
          refl refl n)
    where
      b : Sh W dict
      b = record (set_handlers dict outside rec up t) { pushlist = h.pushlist }

      go :
          (r : Outcome Unit × Sh W dict)
          → Ends false b r
          → Ends raw s {A = A} (after r (λ u st'. land dict outside rec h e st'))
      go r (ends_value {s' = u} same) = ends_jump (
          subst
            (λ hs.
              Reaches hs
                (record u { rest = record u.rest { evaldepth = h.evaldepth; exception = e } }))
            (sym es) (inl (record { pushes = same.pushes; links = same.links; depth = refl })))
      go r (ends_jump {s' = u} l) = ends_jump (subst (λ hs. Reaches hs u) (sym es) (inr l))
      go r (ends_raw x i h) = absurd (no_raw x)
      go r ends_exit = ends_exit
      go r ends_fuel = ends_fuel
      go r ends_null = ends_null

  -- An exception goes to one of the handlers, which `s` has too.
  pub throw_exception-Ends :
      (raw : Bool) (e : List Value) (s t : Sh W dict) {A : Type 0}
      → Held s t
      → IsNested s
      → Ends raw s {A = A} (throw_exception dict outside rec e t)
  unfolding throw_exception IsNested
  throw_exception-Ends raw [] s t held n = ends_null
  throw_exception-Ends raw (x ∷ e) s t held n =
      throw_to-Ends raw t.rest.handlers (x ∷ e) s t refl (sym held.links) (IsNested-Held s t held n)

  pub throw_exception-Keeps :
      (raw : Bool) (e : List Value) {A : Type 0}
      → Keeps raw {A = A} (throw_exception dict outside rec e)
  throw_exception-Keeps raw e s n = throw_exception-Ends raw e s s (Held-refl s) n

  pub failing-Ends :
      (raw : Bool) (f : Failure) (s t : Sh W dict) {A : Type 0}
      → IsRaw f
      → Held s t
      → IsNested s
      → Ends raw s {A = A} (throwing dict outside rec (λ u. (Outcome.failed f, u)) t)
  unfolding fail_in
  failing-Ends raw f s t i held n =
      let (why, e) = reason-IsRaw outside.isprint f i in
      rw e (throw_exception-Ends raw (error_list dict outside rec why) s t held n)

  -- `fail` throws, so that no call of it is left.
  pub throwing-Keeps :
      (raw : Bool) {A : Type 0} (call : Call (Sh W dict) A)
      → Keeps true call
      → Keeps raw (throwing dict outside rec call)
  unfolding fail_in reason
  throwing-Keeps raw {A = A} call k s n = go (call s) (k s n)
    where
      go : (r : Outcome A × Sh W dict) → Ends true s r → Ends raw s (fail_in dict outside rec r)
      go r (ends_value g) = ends_value g
      go r (ends_jump l) = ends_jump l
      go r (ends_raw {f = f} {s' = t} x i held) = failing-Ends raw f s t i held n
      go r ends_exit = ends_exit
      go r ends_fuel = ends_fuel
      go r ends_null = ends_null
