-- ===== src/Opt/Progress.antt =====
-- Every call of `esopt` gets on with the words, so a parse ends.
use desh.Common.{
  ℕ, zero, suc, ◌+◌, ◌-◌, ◌<◌, ◌≤◌, ◌≡◌, refl, ap, sym, ◌∙◌, subst, Bool, true, Option, none, some,
  List, [], ◌∷◌, ◌==◌, if◌then◌else◌, Str, drop, length, Bool-cases, inl, inr, ◌⊎◌, arith, ==_iff,
}
use desh.Opt.{
  OptState, OptFailure, Parsed, strchr, takes_argument, is_option, is_last, esopt_argument,
  esopt_found, esopt_at, esopt_word, esopt_inside, esopt_begun, esopt,
}

drop-suc :
    (n : ℕ) (s : Str) (c : ℕ) (p : Str) → drop n s ≡ c ∷ p → (drop (n + 1) s ≡ p) × (n < length s)
drop-suc zero [] c p e = ground arith
drop-suc zero (x ∷ s) c p e = (ap (drop 1) e, omega arith)
drop-suc (suc n) [] c p e = ground arith
drop-suc (suc n) (x ∷ s) c p e =
    let (d, l) = drop-suc n s c p e in (ap (λ k. drop k (x ∷ s)) (suc_add n) ∙ d, omega arith)
  where
    suc_add : (n : ℕ) → suc n + 1 ≡ suc (n + 1)
    suc_add n = omega arith

nul_found : (s : Str) → (rest : Str) × (strchr s 0 ≡ some rest)
nul_found [] = ([], refl)
nul_found (x ∷ s) = elim (Bool-cases (x == 0)) [
  | inl e ↦ (x ∷ s, rw e refl)
  | inr e ↦ let (rest, h) = nul_found s in (rest, rw e h)
]

module _ {T : Type 0} (getstr : T → Str) where
  -- The bytes of the words, with their ends.
  pub size : List T → ℕ
  size [] = 0
  size (t ∷ ts) = length (getstr t) + 1 + size ts

  -- What is left to read.
  pub left : OptState T → ℕ
  unfolding size
  left st = size st.args - st.nextchar

  -- Between two calls: a word that has been begun has a byte left.
  pub record IsParsing (st : OptState T) : Type 0 where
    pub begun : (u : Str) × (st.usage ≡ some u)
    pub no_term : st.termarg ≡ none
    pub place :
        (st.nextchar ≡ 0)
        ⊎ ((t : T) × ((rest : List T) × ((c : ℕ) × ((p : Str) × ((st.args ≡ t ∷ rest)
                    × (drop st.nextchar (getstr t) ≡ c ∷ p))))))

  -- What a call of `esopt` in the state `st` can do.
  pub data Progress (st : OptState T) : Parsed T → Type 0 where
    stops :
        {st' : OptState T}
        → (st'.args ≡ st.args) ⊎ ((t : T) × (st.args ≡ t ∷ st'.args))
        → Progress st (Parsed.eof st')
    takes :
        {c : ℕ} {st' : OptState T}
        → IsParsing (record st' { termarg = none })
        → left (record st' { termarg = none }) < left st
        → Progress st (Parsed.option c st')
    illegal :
        {c : ℕ} {u : Str} {st' : OptState T}
        → st'.usage ≡ none
        → Progress st (Parsed.failed (OptFailure.illegal_option c u) st')
    misses :
        {c : ℕ} {u : Str} {st' : OptState T}
        → st'.usage ≡ st.usage
        → Progress st (Parsed.failed (OptFailure.expects_argument c u) st')
    lone_dash :
        (t : T) (rest : List T)
        → st.args ≡ t ∷ rest
        → getstr t ≡ b'-' ∷ []
        → Progress st Parsed.overread

  module _ (mkstr : Str → T) where
    -- A new word is next.
    fresh :
        (u : Str) (st : OptState T)
        → st.usage ≡ some u
        → IsParsing (record st { termarg = none; nextchar = 0 })
    fresh u st e = record { begun = (u, e); no_term = refl; place = inl refl }

    argument_alone :
        (c : ℕ) (u : Str) (args : List T) (st st0 : OptState T)
        → st.usage ≡ some u
        → st.usage ≡ st0.usage
        → size args < left st0
        → Progress st0 (esopt_argument getstr mkstr c u [] args st)
    unfolding esopt_argument left size
    argument_alone c u [] st st0 e same l = misses same
    argument_alone c u (t ∷ args) st st0 e same l =
        takes (fresh u (record st { args = args }) e) (omega arith)

    argument_joined :
        (c : ℕ) (u : Str) (x : ℕ) (p : Str) (t : T) (args : List T) (st st0 : OptState T)
        → st.usage ≡ some u
        → size args < left st0
        → Progress st0 (esopt_argument getstr mkstr c u (x ∷ p) (t ∷ args) st)
    unfolding esopt_argument left size
    argument_joined c u x p t args st st0 e l =
        takes (fresh u (record st { args = args }) e) (omega arith)

    -- The byte `c` at `n` of the word `t`, with `p` behind it, while `st` stands at most there.
    found-Progress :
        (c : ℕ) (u : Str) (p : Str) (n : ℕ) (t : T) (rest : List T) (o : Option Str)
        (st : OptState T)
        → st.usage ≡ some u
        → st.termarg ≡ none
        → st.args ≡ t ∷ rest
        → drop n (getstr t) ≡ c ∷ p
        → size (t ∷ rest) - n ≤ left st
        → Progress st (esopt_found getstr mkstr c u (some p) n (t ∷ rest) o st)
    unfolding esopt_found left size
    found-Progress c u p n t rest none st e z a d l = illegal refl
    found-Progress c u [] n t rest (some opt) st e z a d l =
        let (d', b) = drop-suc n (getstr t) c [] d in
        let st' = record st { nextchar = 0; args = rest } in
        elim (Bool-cases (takes_argument opt)) [
          | inl y ↦ rw y (argument_alone c u rest st' st e refl (omega arith))
          | inr y ↦ rw y (takes (fresh u st' e) (omega arith))
        ]
    found-Progress c u (x ∷ p) n t rest (some opt) st e z a d l =
        let (d', b) = drop-suc n (getstr t) c (x ∷ p) d in
        let st' = record st { nextchar = n + 1 } in
        elim (Bool-cases (takes_argument opt)) [
          | inl y ↦ rw y (argument_joined c u x p t rest st' st e (omega arith))
          | inr y ↦ rw y (
              takes
                (record {
                  begun = (u, e);
                  no_term = refl;
                  place = inr (t, (rest, (x, (p, (a, d')))));
                })
                (shorter t rest n st a b l))
        ]
      where
        shorter :
            (t : T) (rest : List T) (n : ℕ) (st : OptState T)
            → st.args ≡ t ∷ rest
            → n < length (getstr t)
            → size (t ∷ rest) - n ≤ left st
            → size st.args - (n + 1) < left st
        shorter t rest n st a b l = omega (arith, ap size a)

    -- The NUL is found in every list of options, so that the code reads behind it.
    overread_at :
        (options u : Str) (n : ℕ) (args : List T) (st : OptState T)
        → esopt_at getstr mkstr options u [] n args st ≡ Parsed.overread
    unfolding esopt_at esopt_found
    overread_at options u n args st = rw (nul_found options).1 refl

    inside-Progress :
        (options u : Str) (n : ℕ) (t : T) (rest : List T) (c : ℕ) (p : Str) (st : OptState T)
        → st.usage ≡ some u
        → st.termarg ≡ none
        → st.args ≡ t ∷ rest
        → drop n (getstr t) ≡ c ∷ p
        → size (t ∷ rest) - n ≤ left st
        → Progress st (esopt_at getstr mkstr options u (drop n (getstr t)) n (t ∷ rest) st)
    unfolding esopt_at
    inside-Progress options u n t rest c p st e z a d l =
        subst (λ w. Progress st (esopt_at getstr mkstr options u w n (t ∷ rest) st)) (sym d)
          (found-Progress c u p n t rest (strchr options c) st e z a d l)

    -- A word that starts with a dash has a byte behind it, or none.
    dash-Progress :
        (options u : Str) (t : T) (rest : List T) (s : Str) (st : OptState T)
        → st.usage ≡ some u
        → st.termarg ≡ none
        → st.args ≡ t ∷ rest
        → size (t ∷ rest) ≤ left st
        → getstr t ≡ s
        → is_option (getstr t) ≡ true
        → Progress st (esopt_at getstr mkstr options u (drop 1 (getstr t)) 1 (t ∷ rest) st)
    unfolding esopt_at
    dash-Progress options u t rest [] st e z a l q y =
        let bad = subst (λ w. is_option w ≡ true) q y in ground arith
    dash-Progress options u t rest (c ∷ []) st e z a l q y =
        let dash = (==_iff c b'-').0 (subst (λ w. is_option w ≡ true) q y) in
        subst (λ w. Progress st (esopt_at getstr mkstr options u w 1 (t ∷ rest) st))
          (sym (ap (drop 1) q))
          (subst (Progress st) (sym (overread_at options u 1 (t ∷ rest) st))
            (lone_dash t rest a (q ∙ ap (λ k. k ∷ []) dash)))
    dash-Progress options u t rest (c ∷ x ∷ p) st e z a l q y =
        inside-Progress options u 1 t rest x p st e z a (ap (drop 1) q) (omega arith)

    word-Progress :
        (options u : Str) (args : List T) (st : OptState T)
        → st.usage ≡ some u
        → st.termarg ≡ none
        → st.args ≡ args
        → size args ≤ left st
        → Progress st (esopt_word getstr mkstr options u args st)
    unfolding esopt_word
    word-Progress options u [] st e z a l = stops (inl refl)
    word-Progress options u (t ∷ rest) st e z a l = elim (Bool-cases (is_option (getstr t))) [
      | inl y ↦ elim (Bool-cases (is_last (getstr t))) [
        | inl w ↦ rw (y, w) (stops (inr (t, a)))
        | inr w ↦ rw (y, w) (dash-Progress options u t rest (getstr t) st e z a l refl y)
      ]
      | inr y ↦ rw y (stops (inl refl))
    ]

    started-Progress :
        (options u : Str) (st : OptState T)
        → st.usage ≡ some u
        → IsParsing st
        → Progress st (esopt_begun getstr mkstr options (some u) none st)
    unfolding esopt_begun esopt_inside left
    started-Progress options u st e h = elim (Bool-cases (st.nextchar == 0)) [
      | inl y ↦ subst test (sym y) (
          word-Progress options u st.args st e h.no_term refl
            (omega (arith, (==_iff st.nextchar 0).0 y)))
      | inr y ↦ elim h.place [
        | inl new ↦ ground arith
        | inr (t, (rest, (c, (p, (a, d))))) ↦ subst test (sym y) (
            subst (λ w. Progress st (esopt_inside getstr mkstr options u st.nextchar w st)) (sym a)
              (inside-Progress options u st.nextchar t rest c p st e h.no_term a d
                (omega (arith, ap size a))))
      ]
    ]
      where
        test : Bool → Type 0
        test b = Progress st (
            if b
            then esopt_word getstr mkstr options u st.args st
            else esopt_inside getstr mkstr options u st.nextchar st.args st)

    begun-Progress :
        (options : Str) (st : OptState T) (o : Option Str) (z : Option T)
        → st.usage ≡ o
        → z ≡ none
        → ((u : Str) × (o ≡ some u))
        → IsParsing st
        → Progress st (esopt_begun getstr mkstr options o z st)
    begun-Progress options st none z e n (u, k) h = ground arith
    begun-Progress options st (some v) (some t) e n k h = ground arith
    begun-Progress options st (some v) none e n k h = started-Progress options v st e h

    -- If a parse is on and a word that has been begun has a byte left, `esopt` fails no assertion: it stops at the end of the options, or returns one and leaves less to read, or fails with one of its two messages; it reads behind the end of a word only if the word is a dash alone.
    pub esopt-Progress :
        (options : Str) (st : OptState T)
        → IsParsing st
        → Progress st (esopt getstr mkstr options st)
    unfolding esopt
    esopt-Progress options st h =
        begun-Progress options st st.usage st.termarg refl h.no_term h.begun h
