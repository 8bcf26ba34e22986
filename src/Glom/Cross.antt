-- ===== src/Glom/Cross.antt =====
-- The order of what `concat` makes.
use desh.Common.{
  ℕ, zero, suc, ◌+◌, ◌<◌, get_or, get_or-append_left, get_or-append_right, ◌*◌, ◌≡◌, refl, ap, sym,
  ◌∙◌, List, [], ◌∷◌, ◌++◌, Option, Str, length, length-append, arith,
}
use desh.Glom.Terms.{Term, Tree}
use desh.Glom.Concat.{getstr, termcat, concat_row, concat}

module _ {B : Type 0} (unparse : Tree → Option B → Str) where
  length-concat_row :
      (t : Term B) (us : List (Term B)) → length (concat_row unparse t us) ≡ length us
  unfolding concat_row
  length-concat_row t [] = refl
  length-concat_row t (u ∷ us) = omega (arith, length-concat_row t us)

  length-concat : (ts us : List (Term B)) → length (concat unparse ts us) ≡ length ts * length us
  unfolding concat
  length-concat [] us = omega arith
  length-concat (t ∷ ts) us = grind (
    arith,
    length-append (concat_row unparse t us) (concat unparse ts us),
    length-concat_row t us,
    length-concat ts us,
  )

  get_or-concat_row :
      (t d : Term B) (us : List (Term B)) (j : ℕ)
      → j < length us
      → get_or (concat_row unparse t us) j d ≡ termcat unparse t (get_or us j d)
  unfolding concat_row
  get_or-concat_row t d [] j h = absurd (omega arith)
  get_or-concat_row t d (u ∷ us) zero h = refl
  get_or-concat_row t d (u ∷ us) (suc j) h = get_or-concat_row t d us j (omega arith)

  row_first :
      (t d : Term B) (ts us : List (Term B)) (j : ℕ)
      → j < length us
      → get_or (concat unparse (t ∷ ts) us) j d ≡ termcat unparse t (get_or us j d)
  unfolding concat
  row_first t d ts us j h =
      get_or-append_left (concat_row unparse t us) (concat unparse ts us) j d
        (omega (arith, h, length-concat_row t us))
      ∙ get_or-concat_row t d us j h

  row_next :
      (t d : Term B) (ts us : List (Term B)) (k : ℕ)
      → get_or (concat unparse (t ∷ ts) us) (length us + k) d ≡ get_or (concat unparse ts us) k d
  unfolding concat
  row_next t d ts us k =
      ap (λ n. get_or (concat unparse (t ∷ ts) us) (n + k) d) (sym (length-concat_row t us))
      ∙ get_or-append_right (concat_row unparse t us) (concat unparse ts us) k d

  get_or-concat :
      (ts us : List (Term B)) (i j : ℕ) (d : Term B)
      → i < length ts
      → j < length us
      → get_or (concat unparse ts us) (i * length us + j) d
        ≡ termcat unparse (get_or ts i d) (get_or us j d)
  get_or-concat [] us i j d hi hj = absurd (omega arith)
  get_or-concat (t ∷ ts) us zero j d hi hj =
      ap (λ n. get_or (concat unparse (t ∷ ts) us) n d) (first (length us) j)
      ∙ row_first t d ts us j hj
    where
      first : (n j : ℕ) → 0 * n + j ≡ j
      first n j = omega arith
  get_or-concat (t ∷ ts) us (suc i) j d hi hj =
      ap (λ n. get_or (concat unparse (t ∷ ts) us) n d) (next (length us) i j)
      ∙ row_next t d ts us (i * length us + j)
      ∙ get_or-concat ts us i j d (omega arith) hj
    where
      next : (n i j : ℕ) → suc i * n + j ≡ n + (i * n + j)
      next n i j = ground arith

  -- `concat` makes a term for each pair of terms, in the order of its loops: with `n` terms in the second list, the term `i * n + j` of the result is the term `i` of the first list followed by the term `j` of the second.
  pub concat_pairs :
      (ts us : List (Term B)) (i j : ℕ) (d : Term B)
      → i < length ts
      → j < length us
      → (length (concat unparse ts us) ≡ length ts * length us)
        × (get_or (concat unparse ts us) (i * length us + j) d
            ≡ Term.text (getstr unparse (get_or ts i d) ++ getstr unparse (get_or us j d)))
  unfolding termcat
  concat_pairs ts us i j d hi hj = (length-concat ts us, get_or-concat ts us i j d hi hj)
