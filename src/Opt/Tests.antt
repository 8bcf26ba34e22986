-- ===== src/Opt/Tests.antt =====
-- Runs of the parser of options, and the theorems at concrete inputs.
use desh.Common.{◌≡◌, refl, inl, none, some, List, [], ◌∷◌, Str, codes}
use desh.Opt.{OptState, OptFailure, Parsed, esoptbegin, esopt}
use desh.Opt.Progress.{IsParsing, Progress, esopt-Progress}
use desh.Opt.Errors.{esopt-esoptbegin}

abbrev self : Str → Str
self s = s

abbrev parsing : List Str → OptState Str
parsing words = record {
  usage = some (codes "usage");
  invoker = codes "$&access";
  args = words;
  termarg = none;
  nextchar = 0;
}

parsing-IsParsing : (words : List Str) → IsParsing self (parsing words)
parsing-IsParsing words = record { begun = (codes "usage", refl); no_term = refl; place = inl refl }

esopt_begins_word :
    esopt self self (codes "ab:") (parsing (codes "-ab" ∷ codes "x" ∷ []))
    ≡ Parsed.option b'a' (record (parsing (codes "-ab" ∷ codes "x" ∷ [])) { nextchar = 2 })
unfolding esopt
esopt_begins_word = refl

esopt_takes_argument :
    esopt self self (codes "ab:") (record (parsing (codes "-ab" ∷ codes "x" ∷ [])) { nextchar = 2 })
    ≡ Parsed.option b'b' (record (parsing []) { termarg = some (codes "x") })
unfolding esopt
esopt_takes_argument = refl

esopt_ends :
    esopt self self (codes "a") (parsing (codes "--" ∷ codes "x" ∷ []))
    ≡ Parsed.eof (parsing (codes "x" ∷ []))
unfolding esopt
esopt_ends = refl

esopt-Progress_example :
    Progress self
      (parsing (codes "-ab" ∷ codes "x" ∷ []))
      (esopt self self (codes "ab:") (parsing (codes "-ab" ∷ codes "x" ∷ [])))
esopt-Progress_example =
    esopt-Progress self self (codes "ab:") (parsing (codes "-ab" ∷ codes "x" ∷ []))
      (parsing-IsParsing (codes "-ab" ∷ codes "x" ∷ []))

esopt_dash : esopt self self (codes "ab:") (parsing (codes "-" ∷ codes "x" ∷ [])) ≡ Parsed.overread
unfolding esopt
esopt_dash = refl

esopt_misses :
    esopt self self (codes "ab:") (parsing (codes "-b" ∷ []))
    ≡ Parsed.failed (OptFailure.expects_argument b'b' (codes "usage")) (parsing [])
unfolding esopt
esopt_misses = refl

esopt-esoptbegin_example :
    esoptbegin (codes "x" ∷ []) (codes "$&dot") (codes "usage") (parsing []) ≡ none
esopt-esoptbegin_example =
    esopt-esoptbegin self self (codes "ab:") (parsing (codes "-b" ∷ [])) (parsing []) b'b'
      (codes "usage") (parsing-IsParsing (codes "-b" ∷ [])) esopt_misses (codes "x" ∷ [])
      (codes "$&dot") (codes "usage")
