-- ===== src/Split/Laws.antt =====
-- What `fsplit` returns and leaves behind.
use desh.Common.{◌≡◌, refl, ap, sym, ◌∙◌, subst, Bool, List, [], Str, reverse}
use desh.Split.{Splitter, split_all, startsplit, endsplit, fsplit}
use desh.Split.Cache.{IsCached, Starts, startsplit-Starts}
use desh.Split.Fields.{all_pieces, ready, pile, split_all-pieces, reverse-pile}

ready-startsplit :
    (sep : Str) (co : Bool) (st : Splitter) → Starts sep co st → st ≡ ready sep co [] st
unfolding ready
ready-startsplit sep co st s = λ i. record st {
  coalesce = s.mode i;
  splitchars = s.chars i;
  buffer = s.closed i;
  value = s.blank i;
  isifs = s.table i;
}

endsplit-ready :
    (sep : Str) (co : Bool) (v : List Str) (st : Splitter)
    → endsplit (ready sep co v st) ≡ (reverse v, ready sep co [] st)
unfolding endsplit ready
endsplit-ready sep co v st = refl

fsplit-run :
    (sep : Str) (ss : List Str) (co : Bool) (st : Splitter)
    → Starts sep co (startsplit sep co st)
    → fsplit sep ss co st ≡ (all_pieces sep co ss, startsplit sep co st)
unfolding fsplit
fsplit-run sep ss co st s =
    ap (λ t. endsplit (split_all ss t)) (ready-startsplit sep co (startsplit sep co st) s)
    ∙ ap endsplit (split_all-pieces sep co ss [] (startsplit sep co st))
    ∙ endsplit-ready sep co (pile (all_pieces sep co ss) []) (startsplit sep co st)
    ∙ ap (λ w. (w, ready sep co [] (startsplit sep co st))) (reverse-pile (all_pieces sep co ss))
    ∙ ap (λ t. (all_pieces sep co ss, t)) (sym (ready-startsplit sep co (startsplit sep co st) s))

-- If the cached table is that of the cached separators, `fsplit` returns the pieces of the strings in order, and leaves an empty result, no open buffer and such a table for the next call.
pub fsplit-all_pieces :
    (sep : Str) (ss : List Str) (co : Bool) (st : Splitter)
    → IsCached st
    → ((fsplit sep ss co st).0 ≡ all_pieces sep co ss) × Starts sep co (fsplit sep ss co st).1
fsplit-all_pieces sep ss co st kept =
    let s = startsplit-Starts sep co st kept in
    let run = fsplit-run sep ss co st s in
    (ap (λ r. r.0) run, subst (λ r. Starts sep co r.1) (sym run) s)
