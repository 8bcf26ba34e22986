-- ===== src/Glom/Quotes.antt =====
-- The quote flags that `qcat` and `qconcat` make fit their terms.
use desh.Common.{
  get_or-append_left, get_or-append_right, ℕ, zero, suc, ◌+◌, ◌<◌, ◌≡◌, refl, ap, sym, ◌∙◌, Option,
  List, [], ◌∷◌, ◌++◌, Str, length, replicate, length-append, length-replicate, get_or, arith, ◌==◌,
  char_at,
}
use desh.Match.{Quote, quoted, unquoted, flags, is_quoted, is_raw}
use desh.Glom.Terms.{Term, Tree}
use desh.Glom.Concat.{getstr, termcat, term_flags, qcat}

get_or_first : (n i : ℕ) (c : ℕ) → i < n → get_or (replicate n c) i 0 ≡ c
get_or_first zero i c h = absurd (omega arith)
get_or_first (suc n) zero c h = refl
get_or_first (suc n) (suc i) c h = get_or_first n i c (omega arith)

-- The flag for byte `i` of a word.
unfoldable pub flag_at : Quote → ℕ → ℕ
flag_at quoted i = b'q'
flag_at unquoted i = b'r'
flag_at (flags f) i = char_at f i

pub is_quoted-flag_at : (q : Quote) (i : ℕ) → is_quoted q i ≡ (flag_at q i == b'q')
unfolding flag_at
is_quoted-flag_at quoted i = refl
is_quoted-flag_at unquoted i = refl
is_quoted-flag_at (flags f) i = refl

pub is_raw-flag_at : (q : Quote) (i : ℕ) → is_raw q i ≡ (flag_at q i == b'r')
unfolding flag_at
is_raw-flag_at quoted i = refl
is_raw-flag_at unquoted i = refl
is_raw-flag_at (flags f) i = refl

module _ {B : Type 0} (unparse : Tree → Option B → Str) where
  -- One flag for each byte of the term, or a flag for all of them.
  pub data Fits : Quote → Term B → Type 0 where
    all_quoted : {t : Term B} → Fits quoted t
    all_raw : {t : Term B} → Fits unquoted t
    each : {f : Str} {t : Term B} → length f ≡ length (getstr unparse t) → Fits (flags f) t

  pub data AllFit : List (Term B) → List Quote → Type 0 where
    nil : AllFit [] []
    cons :
        {t : Term B} {q : Quote} {ts : List (Term B)} {qs : List Quote}
        → Fits q t
        → AllFit ts qs
        → AllFit (t ∷ ts) (q ∷ qs)

  length-term_flags :
      (q : Quote) (t : Term B)
      → Fits q t
      → length (term_flags unparse q t) ≡ length (getstr unparse t)
  unfolding term_flags
  length-term_flags quoted t h = length-replicate (length (getstr unparse t)) b'q'
  length-term_flags unquoted t h = length-replicate (length (getstr unparse t)) b'r'
  length-term_flags (flags f) t (each e) = e

  term_flags-flag_at :
      (q : Quote) (t : Term B) (i : ℕ)
      → i < length (getstr unparse t)
      → get_or (term_flags unparse q t) i 0 ≡ flag_at q i
  unfolding term_flags flag_at
  term_flags-flag_at quoted t i h = get_or_first (length (getstr unparse t)) i b'q' h
  term_flags-flag_at unquoted t i h = get_or_first (length (getstr unparse t)) i b'r' h
  term_flags-flag_at (flags f) t i h = refl

  -- The flags of the two terms, one after the other.
  both_flags : Quote → Quote → Term B → Term B → Str
  both_flags q1 q2 t1 t2 = term_flags unparse q1 t1 ++ term_flags unparse q2 t2

  both_left :
      (q1 q2 : Quote) (t1 t2 : Term B) (i : ℕ)
      → Fits q1 t1
      → i < length (getstr unparse t1)
      → get_or (both_flags q1 q2 t1 t2) i 0 ≡ flag_at q1 i
  unfolding both_flags
  both_left q1 q2 t1 t2 i f h =
      get_or-append_left (term_flags unparse q1 t1) (term_flags unparse q2 t2) i 0
        (omega (arith, length-term_flags q1 t1 f))
      ∙ term_flags-flag_at q1 t1 i h

  both_right :
      (q1 q2 : Quote) (t1 t2 : Term B) (j : ℕ)
      → Fits q1 t1
      → j < length (getstr unparse t2)
      → get_or (both_flags q1 q2 t1 t2) (length (getstr unparse t1) + j) 0 ≡ flag_at q2 j
  unfolding both_flags
  both_right q1 q2 t1 t2 j f h =
      ap (λ n. get_or (term_flags unparse q1 t1 ++ term_flags unparse q2 t2) (n + j) 0)
        (sym (length-term_flags q1 t1 f))
      ∙ get_or-append_right (term_flags unparse q1 t1) (term_flags unparse q2 t2) j 0
      ∙ term_flags-flag_at q2 t2 j h

  both-Fits :
      (q1 q2 : Quote) (t1 t2 : Term B)
      → Fits q1 t1
      → Fits q2 t2
      → Fits (flags (both_flags q1 q2 t1 t2)) (termcat unparse t1 t2)
  unfolding both_flags termcat getstr
  both-Fits q1 q2 t1 t2 f1 f2 = each (
      length-append (term_flags unparse q1 t1) (term_flags unparse q2 t2)
      ∙ rw (length-term_flags q1 t1 f1, length-term_flags q2 t2 f2)
          (sym (length-append (getstr unparse t1) (getstr unparse t2))))

  -- The quoting `q` of the two terms together has the flags of each.
  pub record Keeps (q1 q2 : Quote) (t1 t2 : Term B) (q : Quote) : Type 0 where
    pub fits : Fits q (termcat unparse t1 t2)
    pub left : (i : ℕ) → i < length (getstr unparse t1) → flag_at q i ≡ flag_at q1 i
    pub right :
        (j : ℕ)
        → j < length (getstr unparse t2)
        → flag_at q (length (getstr unparse t1) + j) ≡ flag_at q2 j

  both-Keeps :
      (q1 q2 : Quote) (t1 t2 : Term B)
      → Fits q1 t1
      → Fits q2 t2
      → Keeps q1 q2 t1 t2 (flags (both_flags q1 q2 t1 t2))
  unfolding flag_at
  both-Keeps q1 q2 t1 t2 f1 f2 = record {
    fits = both-Fits q1 q2 t1 t2 f1 f2;
    left = λ i. both_left q1 q2 t1 t2 i f1;
    right = λ j. both_right q1 q2 t1 t2 j f1;
  }

  -- If each quoting fits its term, the quoting that `qcat` makes fits the catenation, and has the flags of the first term and then those of the second.
  pub qcat-Keeps :
      (q1 q2 : Quote) (t1 t2 : Term B)
      → Fits q1 t1
      → Fits q2 t2
      → Keeps q1 q2 t1 t2 (qcat unparse q1 q2 t1 t2)
  unfolding qcat flag_at both_flags
  qcat-Keeps quoted quoted t1 t2 f1 f2 = record {
    fits = all_quoted;
    left = λ i h. refl;
    right = λ j h. refl;
  }
  qcat-Keeps quoted unquoted t1 t2 f1 f2 = both-Keeps quoted unquoted t1 t2 f1 f2
  qcat-Keeps quoted (flags g) t1 t2 f1 f2 = both-Keeps quoted (flags g) t1 t2 f1 f2
  qcat-Keeps unquoted quoted t1 t2 f1 f2 = both-Keeps unquoted quoted t1 t2 f1 f2
  qcat-Keeps unquoted unquoted t1 t2 f1 f2 = record {
    fits = all_raw;
    left = λ i h. refl;
    right = λ j h. refl;
  }
  qcat-Keeps unquoted (flags g) t1 t2 f1 f2 = both-Keeps unquoted (flags g) t1 t2 f1 f2
  qcat-Keeps (flags f) quoted t1 t2 f1 f2 = both-Keeps (flags f) quoted t1 t2 f1 f2
  qcat-Keeps (flags f) unquoted t1 t2 f1 f2 = both-Keeps (flags f) unquoted t1 t2 f1 f2
  qcat-Keeps (flags f) (flags g) t1 t2 f1 f2 = both-Keeps (flags f) (flags g) t1 t2 f1 f2
