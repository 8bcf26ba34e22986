-- ===== src/Opt/Errors.antt =====
-- src/opt.c: `esopt` when an argument is missing.
use desh.Common.{ℕ, ◌≡◌, refl, ◌∙◌, subst, none, some, List, Str}
use desh.Opt.{OptState, OptFailure, Parsed, esoptbegin, esopt}
use desh.Opt.Progress.{IsParsing, Progress, esopt-Progress}

module _ {T : Type 0} (getstr : T → Str) (mkstr : Str → T) where
  in_use :
      (list : List T) (caller msg u : Str) (st : OptState T)
      → st.usage ≡ some u
      → esoptbegin list caller msg st ≡ none
  unfolding esoptbegin
  in_use list caller msg u st e = rw e refl

  missed :
      (st st' : OptState T) (c : ℕ) (u : Str)
      → Progress getstr st (Parsed.failed (OptFailure.expects_argument c u) st')
      → st'.usage ≡ st.usage
  missed st st' c u (Progress.misses same) = same

  -- If `esopt` fails in a parse since an argument is missing, the parser stays in use: the next call of `esoptbegin` fails its assertion, whatever its arguments are.
  pub esopt-esoptbegin :
      (options : Str) (st st' : OptState T) (c : ℕ) (u : Str)
      → IsParsing getstr st
      → esopt getstr mkstr options st ≡ Parsed.failed (OptFailure.expects_argument c u) st'
      → (list : List T) (caller msg : Str) → esoptbegin list caller msg st' ≡ none
  esopt-esoptbegin options st st' c u h e list caller msg =
      let (v, k) = h.begun in
      let p = subst (Progress getstr st) e (esopt-Progress getstr mkstr options st h) in
      in_use list caller msg v st' (missed st st' c u p ∙ k)
