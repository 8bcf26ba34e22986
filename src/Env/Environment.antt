-- ===== src/Env/Environment.antt =====
-- `initenv` on the strings that `mkenv0` makes.
use desh.Common.{
  ◌≡◌, refl, ap, sym, ◌∙◌, Bool, true, false, Option, some, List, [], ◌∷◌, ◌++◌, map, if◌then◌else◌,
  Str, Bool-cases, inl, inr, append-nil, append_assoc, drop,
}
use desh.Split.{Splitter}
use desh.Split.Cache.{IsCached}
use desh.Split.Laws.{fsplit-all_pieces}
use desh.Env.{
  env_separator, Ctype, wconv, envstr, break_at, importvar, Imported, is_imported, import_named,
  import_one, initenv_from, initenv,
}
use desh.Env.Names.{IsBytes, IsCtype, nconv-fconv, break_at-fconv}
use desh.Env.Words.{Shape, text, AllShapes}
use desh.Env.Import.{importvar-wconv}

-- A variable with at least one word, each with at most one separator or escape.
pub record Variable : Type 0 where
  pub name : Str
  pub word : Shape
  pub words : List Shape

unfoldable pub defn : Variable → List Str
defn v = map text (v.word ∷ v.words)

abbrev pub AllVariables : List Variable → Type 0
AllVariables [] = Unit {0}
AllVariables (v ∷ vs) = IsBytes v.name × AllShapes (v.word ∷ v.words) × AllVariables vs

abbrev pub strings : Ctype → List Variable → List Str
strings ct [] = []
strings ct (v ∷ vs) = envstr ct v.name (defn v) ∷ strings ct vs

-- The variables that are not protected.
unfoldable pub imports : Bool → List Variable → List (Str × List Str)
imports protect [] = []
imports protect (v ∷ vs) =
    let rest = imports protect vs in
    if is_imported protect v.name then (v.name, defn v) ∷ rest else rest

importvar-IsCached : (value : Str) (st : Splitter) → IsCached st → IsCached (importvar value st).1
unfolding importvar
importvar-IsCached value st kept =
    (fsplit-all_pieces (env_separator ∷ []) (drop 1 value ∷ []) false st kept).1.cached

-- The state behind one string.
record Step (protect : Bool) (v : Variable) (done : Imported) (o : Option Imported) : Type 0 where
  next : Imported
  runs : o ≡ some next
  raw : next.raw ≡ done.raw
  vardefs : next.vardefs ≡ done.vardefs ++ imports protect (v ∷ [])
  cached : IsCached next.splitter

importvar-defn :
    (v : Variable) (st : Splitter)
    → IsCached st
    → AllShapes (v.word ∷ v.words)
    → (importvar (b'=' ∷ wconv (defn v)) st).0 ≡ defn v
unfolding defn
importvar-defn v st kept h = importvar-wconv v.word v.words st kept h

imports_one :
    (protect : Bool) (v : Variable)
    → is_imported protect v.name ≡ true
    → imports protect (v ∷ []) ≡ (v.name, defn v) ∷ []
unfolding imports
imports_one protect v e = rw e refl

imports_none :
    (protect : Bool) (v : Variable)
    → is_imported protect v.name ≡ false
    → imports protect (v ∷ []) ≡ []
unfolding imports
imports_none protect v e = rw e refl

named-Step :
    (protect : Bool) (v : Variable) (done : Imported)
    → IsCached done.splitter
    → AllShapes (v.word ∷ v.words)
    → Step protect v done (import_named protect (b'=' ∷ wconv (defn v)) done (some v.name))
unfolding import_named
named-Step protect v done kept h =
    let value = b'=' ∷ wconv (defn v) in
    let same = importvar-defn v done.splitter kept h in
    elim (Bool-cases (is_imported protect v.name)) [
      | inl e ↦ rw e (record {
        next = record done {
          vardefs = done.vardefs ++ (v.name, (importvar value done.splitter).0) ∷ [];
          splitter = (importvar value done.splitter).1;
        };
        runs = refl;
        raw = refl;
        vardefs =
            ap (λ ws. done.vardefs ++ (v.name, ws) ∷ []) same
            ∙ ap (λ ds. done.vardefs ++ ds) (sym (imports_one protect v e));
        cached = importvar-IsCached value done.splitter kept;
      })
      | inr e ↦ rw e (record {
        next = done;
        runs = refl;
        raw = refl;
        vardefs =
            sym (append-nil done.vardefs)
            ∙ ap (λ ds. done.vardefs ++ ds) (sym (imports_none protect v e));
        cached = kept;
      })
    ]

one-Step :
    (ct : Ctype) (protect : Bool) (v : Variable) (done : Imported)
    → IsCtype ct
    → IsCached done.splitter
    → IsBytes v.name
    → AllShapes (v.word ∷ v.words)
    → Step protect v done (
        import_one protect
          (envstr ct v.name (defn v))
          done
          (break_at b'=' (envstr ct v.name (defn v))))
unfolding import_one envstr
one-Step ct protect v done ok kept b h =
    rw (break_at-fconv ct ok v.name (wconv (defn v)), nconv-fconv ct ok v.name b)
      (named-Step protect v done kept h)

imports-cons :
    (protect : Bool) (v : Variable) (vs : List Variable)
    → imports protect (v ∷ vs) ≡ imports protect (v ∷ []) ++ imports protect vs
unfolding imports
imports-cons protect v vs = elim (Bool-cases (is_imported protect v.name)) [
  | inl e ↦ rw e refl
  | inr e ↦ rw e refl
]

-- The state behind all the strings.
pub record Imports (protect : Bool) (vs : List Variable) (done : Imported) (o : Option Imported)
    : Type 0 where
  pub last : Imported
  pub runs : o ≡ some last
  pub raw : last.raw ≡ done.raw
  pub vardefs : last.vardefs ≡ done.vardefs ++ imports protect vs
  pub cached : IsCached last.splitter

initenv_from-Imports :
    (ct : Ctype) (protect : Bool) (vs : List Variable) (done : Imported)
    → IsCtype ct
    → IsCached done.splitter
    → AllVariables vs
    → Imports protect vs done (initenv_from protect (strings ct vs) done)
unfolding initenv_from imports
initenv_from-Imports ct protect [] done ok kept h = record {
  last = done;
  runs = refl;
  raw = refl;
  vardefs = sym (append-nil done.vardefs);
  cached = kept;
}
initenv_from-Imports ct protect (v ∷ vs) done ok kept (b, h, hs) =
    let s = one-Step ct protect v done ok kept b h in
    let r = initenv_from-Imports ct protect vs s.next ok s.cached hs in
    record {
      last = r.last;
      runs = rw s.runs r.runs;
      raw = r.raw ∙ s.raw;
      vardefs =
          r.vardefs
          ∙ ap (λ ds. ds ++ imports protect vs) s.vardefs
          ∙ append_assoc done.vardefs (imports protect (v ∷ [])) (imports protect vs)
          ∙ ap (λ ds. done.vardefs ++ ds) (sym (imports-cons protect v vs));
      cached = r.cached;
    }

-- If the underscore and `=` are no letters or digits and the cached table of the splitter is that of its separators, `initenv` on the strings that variables are exported as defines each variable that is not protected, in order, with its name and its words, where each variable has a word and no word has more than one separator or escape in it.
pub initenv-Imports :
    (ct : Ctype) (protect : Bool) (vs : List Variable) (st : Splitter)
    → IsCtype ct
    → IsCached st
    → AllVariables vs
    → Imports protect vs
        (record { raw = []; vardefs = []; splitter = st })
        (initenv (strings ct vs) protect st)
unfolding initenv
initenv-Imports ct protect vs st ok kept h =
    initenv_from-Imports ct protect vs (record { raw = []; vardefs = []; splitter = st }) ok kept h
