-- ===== src/Eval/Calls.antt =====
-- src/eval.c: the scope of `eval` around the closures that it calls.
use desh.Common.{
  ◌-◌, Bool, true, false, ◌&&◌, not, Option, none, some, List, [], ◌∷◌, ◌++◌, refl, ap, if_split,
  Str, codes,
}
use desh.Match.{Quote}
use desh.Glom.Terms.{Tree, Term}
use desh.Glom.Walk.{Call, after, glom}
use desh.Status.{istrue}
use desh.Var.Dictionary.{Dictionary}
use desh.Var.State.{Var}
use desh.Eval.State.{Ref, Value, Flags, Sh, Rec, Outside}
use desh.Eval.Bindings.{share}
use desh.Eval.Throw.{throwing, catch_named}
use desh.Eval.Let.{shell}
use desh.Eval.Run.{
  looks_like_closure, parameters, getclosure, bindargs, finish, named, call_lambda, doubled,
  call_prim, call_closure,
}
use desh.Eval.Ends.{
  whole, Held, Ends, ends_value, ends_exit, ends_null, IsNested, Keeps, Same-refl, Same-Held,
  IsNested-Held, under, from_Same, bind, null-Keeps, weaken,
}
use desh.Eval.Throws.{IsKeeping, lowered, throwing-Keeps}
use desh.Eval.Catches.{catching-Keeps, catch_named-Keeps}
use desh.Eval.Words.{mkbinding-Keeps, mkbindings-Keeps}
use desh.Eval.Scopes.{word-Keeps, scope-Keeps}

module _ {W : Type 0} {dict : Dictionary (Var Value)} where
  -- A call that ends one level up.
  abbrev pub Lowers : Call (Sh W dict) (List Value) → Type 0
  Lowers call = (s : Sh W dict) → IsNested s → Ends false (lowered s) (call s)

  pub lowered-Held : (s : Sh W dict) → Held (lowered s) s
  unfolding lowered
  lowered-Held s = record { more = whole; links = refl }

  -- A call in the scope of `eval`, and what leaves it.
  pub then-Lowers :
      {A : Type 0} (call : Call (Sh W dict) A) (f : A → Call (Sh W dict) (List Value))
      → Keeps false call
      → ((a : A) → Lowers (f a))
      → Lowers (λ s. after (call s) f)
  unfolding lowered
  then-Lowers call f k next s n =
      under false (lowered s) s (call s) f (lowered-Held s) (k s n) (λ a u same.
        from_Same false (lowered s) (lowered u) (f a u)
          (record { pushes = same.pushes; links = same.links; depth = ap (λ d. d - 1) same.depth })
          (next a u (IsNested-Held s u (Same-Held s u same) n)))

  -- The code that is not modelled returns in the scope in which it was called, or jumps to a handler,
  -- if the functions that it calls do.
  pub record IsDisciplined (outside : Outside W dict) : Type 0 where
    pub parses :
        (rec : Rec W dict) → IsKeeping rec → (s : Str) → Keeps false (outside.parse_closure rec s)
    pub prims :
        (rec : Rec W dict)
        → IsKeeping rec
        → (w : Str) (args : List Value) (b : Ref) (flags : Flags)
        → Keeps false (outside.prim rec w args b flags)
    pub globs :
        (rec : Rec W dict)
        → IsKeeping rec
        → (list : List Value) (quote : List Quote) → Keeps false (outside.glob rec list quote)
    pub forks :
        (rec : Rec W dict)
        → IsKeeping rec
        → (file : Str) (list : List Value) (inchild : Bool)
        → Keeps false (outside.forkexec rec file list inchild)

module _ {W : Type 0} {dict : Dictionary (Var Value)} (outside : Outside W dict)
    (disciplined : IsDisciplined outside) (rec : Rec W dict) (keeping : IsKeeping rec) where
  pub finish-Lowers :
      (flags : Flags) (list : List Value) → Lowers (finish dict outside rec flags list)
  unfolding finish lowered
  finish-Lowers flags list s n =
      if_split (Ends false (lowered s)) (flags.exitonfalse && not (istrue list)) _ _
        (λ h. ends_exit) (λ h. ends_value (record { pushes = refl; links = refl; depth = refl }))

  pub getclosure-Keeps : (t : Value) → Keeps false (getclosure dict outside rec t)
  unfolding getclosure
  getclosure-Keeps (Term.closure t b) s n = ends_value (Same-refl s)
  getclosure-Keeps (Term.text w) s n =
      if_split (Ends false s) (looks_like_closure w) (outside.parse_closure rec w s) _
        (λ h. disciplined.parses rec keeping w s n) (λ h. ends_value (Same-refl s))

  pub thrown-Keeps :
      {A : Type 0} (call : Call (Sh W dict) A)
      → Keeps true call
      → Keeps false (throwing dict outside rec call)
  thrown-Keeps = throwing-Keeps outside rec keeping false

  bindargs-Keeps :
      (params : Option (List Str)) (args : List Value) (b : Ref)
      → Keeps true (bindargs dict outside rec params args b)
  unfolding bindargs
  bindargs-Keeps none args b = null-Keeps true
  bindargs-Keeps (some []) args b = mkbinding-Keeps outside (codes "*") args b
  bindargs-Keeps (some (p ∷ params)) args b = mkbindings-Keeps outside (share (p ∷ params) args) b

  named-Keeps :
      (funcname : Option Str) (call : Call (Sh W dict) (List Value))
      → Keeps true call
      → Keeps true (named dict outside rec funcname call)
  unfolding named
  named-Keeps none call k s n = k s n
  named-Keeps (some name) call k s n =
      scope-Keeps outside rec keeping (disciplined.globs rec keeping) (codes "0")
        (Term.text name ∷ []) call k s n

  call_lambda-Keeps :
      (funcname : Option Str) (params body : Tree) (b : Ref) (args : List Value) (flags : Flags)
      → Keeps false (call_lambda dict outside rec funcname params body b args flags)
  unfolding call_lambda
  call_lambda-Keeps funcname params body b args flags =
      catching-Keeps outside rec keeping false _ (catch_named dict outside rec (codes "return"))
        (thrown-Keeps _ (
          bind true (bindargs dict outside rec (parameters params) args b) _
            (bindargs-Keeps (parameters params) args b)
            (λ context.
              named-Keeps funcname (rec.walk body context flags) (
                weaken true (rec.walk body context flags)
                  (keeping.walk_keeps body context flags)))))
        (catch_named-Keeps outside rec keeping false (codes "return"))

  doubled-Lowers :
      (funcname : Option Str) (list : List Value) (b : Ref) (flags : Flags)
      → Lowers (doubled dict outside rec funcname list b flags)
  doubled-Lowers funcname [] b flags s n = ends_null
  doubled-Lowers funcname (v ∷ vs) b flags s n =
      keeping.restart_keeps funcname ((v ∷ vs) ++ vs) b flags s n

  call_prim-Lowers :
      (w : Str) (cb : Ref) (args : List Value) (b : Ref) (flags : Flags)
      → Lowers (call_prim dict outside rec w cb args b flags)
  call_prim-Lowers w none args b flags s n =
      then-Lowers (outside.prim rec w args b flags) (finish dict outside rec flags)
        (disciplined.prims rec keeping w args b flags) (finish-Lowers flags) s n
  call_prim-Lowers w (some i) args b flags s n = ends_null

  pub call_closure-Lowers :
      (t : Tree) (cb : Ref) (funcname : Option Str) (args : List Value) (b : Ref) (flags : Flags)
      → Lowers (call_closure dict outside rec t cb funcname args b flags)
  unfolding call_closure
  call_closure-Lowers (Tree.prim w) cb funcname args b flags s n =
      call_prim-Lowers w cb args b flags s n
  call_closure-Lowers (Tree.thunk t) cb funcname args b flags s n =
      then-Lowers (rec.walk t cb flags) (finish dict outside rec flags)
        (keeping.walk_keeps t cb flags) (finish-Lowers flags) s n
  call_closure-Lowers (Tree.lambda params body) cb funcname args b flags s n =
      then-Lowers (call_lambda dict outside rec funcname params body cb args flags)
        (finish dict outside rec flags) (call_lambda-Keeps funcname params body cb args flags)
        (finish-Lowers flags) s n
  call_closure-Lowers (Tree.list t u) cb funcname args b flags s n =
      then-Lowers
        (throwing dict outside rec (glom (shell dict outside rec) (Tree.list t u) cb true)) _
        (thrown-Keeps (glom (shell dict outside rec) (Tree.list t u) cb true)
          (word-Keeps outside rec keeping (disciplined.globs rec keeping) (Tree.list t u) cb true))
        (λ list. doubled-Lowers funcname list b flags) s n
  call_closure-Lowers Tree.null cb funcname args b flags s n = ends_null
  call_closure-Lowers (Tree.word w) cb funcname args b flags s n = ends_null
  call_closure-Lowers (Tree.qword w) cb funcname args b flags s n = ends_null
  call_closure-Lowers (Tree.var t) cb funcname args b flags s n = ends_null
  call_closure-Lowers (Tree.call t) cb funcname args b flags s n = ends_null
  call_closure-Lowers (Tree.varsub t u) cb funcname args b flags s n = ends_null
  call_closure-Lowers (Tree.concat t u) cb funcname args b flags s n = ends_null
  call_closure-Lowers (Tree.other k t u) cb funcname args b flags s n = ends_null
