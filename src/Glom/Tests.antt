-- ===== src/Glom/Tests.antt =====
-- Runs of the walks over words, and the theorems at concrete inputs.
use desh.Common.{
  ◌*◌, ◌++◌, get_or, length, arith, ℕ, ◌+◌, ◌≡◌, refl, true, Option, List, [], ◌∷◌, Str, codes,
  length, ◌-◌,
}
use desh.Match.{quoted, unquoted, flags}
use desh.Glom.Terms.{ℤ, Tree, Term, Failure, Outcome}
use desh.Glom.Concat.{getstr, concat, qcat, qconcat}
use desh.Glom.Quotes.{all_quoted, all_raw, nil, cons, Keeps, qcat-Keeps}
use desh.Glom.Rows.{Quoted, qconcat-Quoted}
use desh.Glom.Cross.{concat_pairs}
use desh.Glom.Subscript.{subscript}
use desh.Glom.Subscript.Ranges.{select, all_ranges, subscript-select}
use desh.Glom.Subscript.Safe.{IsDefined, subscript-IsDefined}
use desh.Glom.Walk.{Shell, glom1, glom2, glom}
use desh.Glom.Agree.{Agrees, glom2-Agrees-glom1}

abbrev unparse : Tree → Option ℕ → Str
unparse t b = codes "closure"

-- `atoi` on one digit; other strings give 0.
abbrev digit : Str → ℤ
digit (c ∷ []) = ℤ.pos (c - 48)
digit s = ℤ.pos 0

abbrev letters : List (Term ℕ)
letters = Term.text (codes "a") ∷ Term.text (codes "b") ∷ Term.text (codes "c") ∷ []

-- Every variable holds three letters; a command returns one word and is counted in the state.
abbrev shell : Shell ℕ ℕ
shell = record {
  unparse = unparse;
  atoi = digit;
  varlookup = λ name b s. (Outcome.value letters, s);
  walk = λ t b s. (Outcome.value (Term.text (codes "out") ∷ []), s + 1);
  glob = λ list quote s. (Outcome.value list, s);
}

abbrev word : Tree
word =
    Tree.concat (Tree.word (codes "*"))
      (Tree.list (Tree.call Tree.null) (Tree.list (Tree.var (Tree.word (codes "v"))) Tree.null))

glom2_runs : glom2 shell word 0 0 ≡ (
  Outcome.value (
    Term.text (codes "*out")
        ∷ Term.text (codes "*a")
        ∷ Term.text (codes "*b")
        ∷ Term.text (codes "*c")
        ∷ [],
    flags (codes "rqqq") ∷ flags (codes "rq") ∷ flags (codes "rq") ∷ flags (codes "rq") ∷ [],
  ),
  1,
)
unfolding glom2 qconcat
glom2_runs = refl

glom_runs :
    glom shell (Tree.list (Tree.word (codes "a")) Tree.null) 0 true 0
    ≡ (Outcome.value (Term.text (codes "a") ∷ []), 0)
unfolding glom
glom_runs = refl

glom1_no_name :
    glom1 shell (Tree.varsub Tree.null Tree.null) 0 0 ≡ (Outcome.failed Failure.null_name, 0)
unfolding glom1
glom1_no_name = refl

glom2-Agrees-glom1_example : Agrees shell (glom2 shell word 0 0) (glom1 shell word 0 0)
glom2-Agrees-glom1_example = glom2-Agrees-glom1 shell word 0 0

abbrev subs : List Str
subs = codes "3" ∷ codes "1" ∷ codes "..." ∷ codes "2" ∷ codes "2" ∷ codes "..." ∷ []

abbrev self : Str → Str
self s = s

abbrev numbers : List ℕ
numbers = 10 ∷ 20 ∷ 30 ∷ []

subscript_runs : subscript self digit numbers subs ≡ Outcome.value (30 ∷ 10 ∷ 20 ∷ 20 ∷ 30 ∷ [])
unfolding subscript
subscript_runs = refl

subscript_fails :
    subscript self digit numbers (codes "1" ∷ codes "0" ∷ [])
    ≡ Outcome.failed (Failure.bad_subscript (codes "0"))
unfolding subscript
subscript_fails = refl

subscript-select_example :
    subscript self digit numbers subs
    ≡ select numbers [] (all_ranges self digit (length numbers) subs)
subscript-select_example = subscript-select self digit numbers subs

subscript-IsDefined_example : IsDefined (subscript self digit numbers subs)
subscript-IsDefined_example = subscript-IsDefined self digit numbers subs

abbrev star : Term ℕ
star = Term.text (codes "*")

abbrev letter : Term ℕ
letter = Term.text (codes "a")

qcat-Keeps_example :
    Keeps unparse unquoted quoted star letter (qcat unparse unquoted quoted star letter)
qcat-Keeps_example = qcat-Keeps unparse unquoted quoted star letter all_raw all_quoted

qconcat-Quoted_example :
    Quoted unparse
      (concat unparse (star ∷ []) (letter ∷ []))
      (qconcat unparse (star ∷ []) (letter ∷ []) (unquoted ∷ []) (quoted ∷ []))
qconcat-Quoted_example =
    qconcat-Quoted unparse (star ∷ []) (letter ∷ []) (unquoted ∷ []) (quoted ∷ [])
      (cons all_raw nil) (cons all_quoted nil)

concat_pairs_example :
    (length (concat unparse letters (star ∷ [])) ≡ length letters * 1)
    × (get_or (concat unparse letters (star ∷ [])) 1 star
        ≡ Term.text (getstr unparse (get_or letters 1 star) ++ codes "*"))
unfolding getstr
concat_pairs_example = concat_pairs unparse letters (star ∷ []) 1 0 star (omega arith) (omega arith)
