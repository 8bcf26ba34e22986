-- ===== src/Glom/Concat.antt =====
-- src/glom.cpp: `concat`, `qcat` and `qconcat`, with `termcat` and `getstr` of src/term.c.
use desh.Common.{List, [], ◌∷◌, ◌++◌, Option, none, some, Str, length, replicate}
use mathlib.Core.Option
use desh.Match.{Quote, quoted, unquoted, flags}
use desh.Glom.Terms.{Term, Tree}

-- The conversion `%C` of a closure to text.
module _ {B : Type 0} (unparse : Tree → Option B → Str) where
  unfoldable pub getstr : Term B → Str
  getstr (Term.text s) = s
  getstr (Term.closure t b) = unparse t b

  -- `termcat` on terms that are not NULL
  unfoldable pub termcat : Term B → Term B → Term B
  unfolding getstr
  termcat t1 t2 = Term.text (getstr t1 ++ getstr t2)

  -- The inner loop of `concat`.
  unfoldable pub concat_row : Term B → List (Term B) → List (Term B)
  unfolding termcat
  concat_row t1 [] = []
  concat_row t1 (t2 ∷ list2) = termcat t1 t2 ∷ concat_row t1 list2

  unfoldable pub concat : List (Term B) → List (Term B) → List (Term B)
  unfolding concat_row
  concat [] list2 = []
  concat (t1 ∷ list1) list2 = concat_row t1 list2 ++ concat list1 list2

  -- The bytes that `qcat` writes for one of its terms, by memset or memcpy.
  unfoldable pub term_flags : Quote → Term B → Str
  unfolding getstr
  term_flags quoted t = replicate (length (getstr t)) b'q'
  term_flags unquoted t = replicate (length (getstr t)) b'r'
  term_flags (flags f) t = f

  unfoldable pub qcat : Quote → Quote → Term B → Term B → Quote
  unfolding term_flags
  qcat quoted quoted t1 t2 = quoted
  qcat unquoted unquoted t1 t2 = unquoted
  qcat q1 q2 t1 t2 = flags (term_flags q1 t1 ++ term_flags q2 t2)

  -- The inner loop of `qconcat`. A quote list that is too short ends in a NULL pointer.
  unfoldable pub qconcat_row :
      Term B → Quote → List (Term B) → List Quote → Option (List (Term B) × List Quote)
  unfolding termcat qcat
  qconcat_row t1 q1 [] ql2 = some ([], [])
  qconcat_row t1 q1 (t2 ∷ list2) [] = none
  qconcat_row t1 q1 (t2 ∷ list2) (q2 ∷ ql2) =
      Option.map (λ (ts, qs). (termcat t1 t2 ∷ ts, qcat q1 q2 t1 t2 ∷ qs))
        (qconcat_row t1 q1 list2 ql2)

  -- Two results, one after the other.
  abbrev pub append_both :
      Option (List (Term B) × List Quote)
      → Option (List (Term B) × List Quote)
      → Option (List (Term B) × List Quote)
  append_both none r = none
  append_both (some (ts, qs)) none = none
  append_both (some (ts, qs)) (some (us, rs)) = some (ts ++ us, qs ++ rs)

  -- `ql1 = ql1->next` reads `ql1` in every round.
  unfoldable pub qconcat :
      List (Term B) → List (Term B) → List Quote → List Quote → Option (List (Term B) × List Quote)
  unfolding qconcat_row
  qconcat [] list2 ql1 ql2 = some ([], [])
  qconcat (t1 ∷ list1) list2 [] ql2 = none
  qconcat (t1 ∷ list1) list2 (q1 ∷ ql1) ql2 =
      append_both (qconcat_row t1 q1 list2 ql2) (qconcat list1 list2 ql1 ql2)
