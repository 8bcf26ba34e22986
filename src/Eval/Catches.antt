-- ===== src/Eval/Catches.antt =====
-- src/except.c: the scope of the body of a handler, and of what catches exceptions.
use desh.Common.{
  ℕ, Bool, false, Option, none, some, List, [], ◌∷◌, ◌≡◌, refl, ap, inl, inr, length, ◌<◌, ◌+◌, suc,
  arith, ◌==◌, ==_iff, if_split, Str, if◌then◌else◌,
}
use desh.Glom.Terms.{Failure, Outcome}
use desh.Glom.Walk.{Call}
use desh.Var.Dictionary.{Dictionary}
use desh.Var.State.{Var}
use desh.Eval.State.{Value, Handler, Sh, Rec, Outside}
use desh.Eval.Throw.{
  throw_exception, leave_handler, enter_handler, catching, termeq, catch_named, signalled, sigchk,
}
use desh.Eval.Ends.{
  whole, Nested, Same, Reaches, Ends, ends_value, ends_jump, ends_raw, ends_exit, ends_fuel,
  ends_null, IsNested, Keeps, Same-refl, Same-Held, IsNested-Held, Reaches-length, from_Same,
  no_raw,
}
use desh.Eval.Throws.{are_equal, IsKeeping, throw_exception-Ends, throw_exception-Keeps}

module _ {W : Type 0} {dict : Dictionary (Var Value)} (outside : Outside W dict) (rec : Rec W dict)
    (keeping : IsKeeping rec) where
  -- The body of a handler, and the branch that catches what is thrown to it.
  pub catching-Keeps :
      (raw : Bool) (body : Call (Sh W dict) (List Value))
      (catch : List Value → Call (Sh W dict) (List Value))
      → Keeps false body
      → ((e : List Value) → Keeps raw (catch e))
      → Keeps raw (catching dict outside rec body catch)
  unfolding catching leave_handler IsNested Nested Reaches
  catching-Keeps raw body catch k next s n = go (body t) (k t (whole, n))
    where
      t : Sh W dict
      t = enter_handler dict outside rec s

      hs : List Handler
      hs = s.rest.handlers

      caught : (u : Sh W dict) → Same s u → Ends raw s (catch u.rest.exception u)
      caught u same =
          from_Same raw s u (catch u.rest.exception u) same
            (next u.rest.exception u (IsNested-Held s u (Same-Held s u same) n))

      shorter : {i j : ℕ} → i < j → i ≡ j → ⊥
      shorter a b = omega arith

      jumped :
          (u : Sh W dict)
          → Reaches t.rest.handlers u
          → Ends raw s (
              if length u.rest.handlers == length hs
              then catch u.rest.exception u
              else (Outcome.failed Failure.jump, u))
      jumped u (inl l) =
          rw (are_equal (length u.rest.handlers) (length hs) (ap length l.links))
            (caught u (record { pushes = l.pushes; links = l.links; depth = l.depth }))
      jumped u (inr l) =
          if_split (Ends raw s) (length u.rest.handlers == length hs) (catch u.rest.exception u)
            (Outcome.failed Failure.jump, u)
            (λ e.
              absurd (
                shorter (Reaches-length hs u l)
                  ((==_iff (length u.rest.handlers) (length hs)).0 e)))
            (λ e. ends_jump l)

      one_more : {i j : ℕ} → i ≡ suc j → i ≡ j + 1
      one_more e = omega arith

      go :
          (r : Outcome (List Value) × Sh W dict)
          → Ends false t r
          → Ends raw s (leave_handler dict outside rec hs catch r)
      go r (ends_value {s' = u} same) =
          rw (are_equal (length u.rest.handlers) (length hs + 1) (one_more (ap length same.links)))
            (ends_value (record { pushes = same.pushes; links = refl; depth = same.depth }))
      go r (ends_jump {s' = u} l) = jumped u l
      go r (ends_raw x i h) = absurd (no_raw x)
      go r ends_exit = ends_exit
      go r ends_fuel = ends_fuel
      go r ends_null = ends_null

  pub catch_named-Keeps :
      (raw : Bool) (name : Str) (e : List Value) → Keeps raw (catch_named dict outside rec name e)
  unfolding catch_named
  catch_named-Keeps raw name [] s n = ends_null
  catch_named-Keeps raw name (t ∷ e) s n =
      if_split (Ends raw s) (termeq dict outside rec t name) (Outcome.value e, s)
        (throw_exception dict outside rec (t ∷ e) s) (λ h. ends_value (Same-refl s))
        (λ h. throw_exception-Keeps outside rec keeping raw (t ∷ e) s n)

  signalled-Ends :
      (raw : Bool) (e : Option (List Value)) (s t : Sh W dict)
      → Same s t
      → IsNested s
      → Ends raw s (signalled dict outside rec e t)
  signalled-Ends raw none s t same n = ends_value same
  signalled-Ends raw (some e) s t same n =
      throw_exception-Ends outside rec keeping raw e s t (Same-Held s t same) n

  pub sigchk-Keeps : (raw : Bool) → Keeps raw (sigchk dict outside rec)
  unfolding sigchk
  sigchk-Keeps raw s n =
      signalled-Ends raw ((outside.pending s.rest.world).0) s _
        (record { pushes = refl; links = refl; depth = refl }) n
