-- ===== src/Glom/Rows.antt =====
-- `qconcat` against `concat`, and the quotings that it makes.
use desh.Common.{◌≡◌, refl, Option, some, List, [], ◌∷◌, ◌++◌, Str}
use desh.Match.{Quote}
use desh.Glom.Terms.{Term, Tree}
use desh.Glom.Concat.{concat_row, concat, qcat, qconcat_row, qconcat}
use desh.Glom.Quotes.{Fits, AllFit, nil, cons, qcat-Keeps}

module _ {B : Type 0} (unparse : Tree → Option B → Str) where
  pub AllFit-append :
      (ts us : List (Term B)) (qs rs : List Quote)
      → AllFit unparse ts qs
      → AllFit unparse us rs
      → AllFit unparse (ts ++ us) (qs ++ rs)
  AllFit-append [] us [] rs nil g = g
  AllFit-append [] us (q ∷ qs) rs h g = elim h [ ]
  AllFit-append (t ∷ ts) us [] rs h g = elim h [ ]
  AllFit-append (t ∷ ts) us (q ∷ qs) rs (cons f fs) g = cons f (AllFit-append ts us qs rs fs g)

  -- A result of `qconcat`: the terms are those of `concat`, and the quoting fits.
  pub record Quoted (ts : List (Term B)) (o : Option (List (Term B) × List Quote)) : Type 0 where
    pub quotes : List Quote
    pub runs : o ≡ some (ts, quotes)
    pub fit : AllFit unparse ts quotes

  qconcat_row-Quoted :
      (t1 : Term B) (q1 : Quote) (list2 : List (Term B)) (ql2 : List Quote)
      → Fits unparse q1 t1
      → AllFit unparse list2 ql2
      → Quoted (concat_row unparse t1 list2) (qconcat_row unparse t1 q1 list2 ql2)
  unfolding concat_row qconcat_row
  qconcat_row-Quoted t1 q1 [] [] f nil = record { quotes = []; runs = refl; fit = nil }
  qconcat_row-Quoted t1 q1 [] (q2 ∷ ql2) f h = elim h [ ]
  qconcat_row-Quoted t1 q1 (t2 ∷ list2) [] f h = elim h [ ]
  qconcat_row-Quoted t1 q1 (t2 ∷ list2) (q2 ∷ ql2) f (cons g gs) =
      let r = qconcat_row-Quoted t1 q1 list2 ql2 f gs in
      record {
        quotes = qcat unparse q1 q2 t1 t2 ∷ r.quotes;
        runs = rw r.runs refl;
        fit = cons (qcat-Keeps unparse q1 q2 t1 t2 f g).fits r.fit;
      }

  -- For lists with quotings that fit, `qconcat` returns the terms that `concat` returns, with quotings that fit them.
  pub qconcat-Quoted :
      (list1 list2 : List (Term B)) (ql1 ql2 : List Quote)
      → AllFit unparse list1 ql1
      → AllFit unparse list2 ql2
      → Quoted (concat unparse list1 list2) (qconcat unparse list1 list2 ql1 ql2)
  unfolding concat qconcat
  qconcat-Quoted [] list2 [] ql2 nil gs = record { quotes = []; runs = refl; fit = nil }
  qconcat-Quoted [] list2 (q1 ∷ ql1) ql2 h gs = elim h [ ]
  qconcat-Quoted (t1 ∷ list1) list2 [] ql2 h gs = elim h [ ]
  qconcat-Quoted (t1 ∷ list1) list2 (q1 ∷ ql1) ql2 (cons f fs) gs =
      let row = qconcat_row-Quoted t1 q1 list2 ql2 f gs in
      let r = qconcat-Quoted list1 list2 ql1 ql2 fs gs in
      record {
        quotes = row.quotes ++ r.quotes;
        runs = rw (row.runs, r.runs) refl;
        fit =
            AllFit-append (concat_row unparse t1 list2) (concat unparse list1 list2) row.quotes
              r.quotes row.fit r.fit;
      }
