-- ===== src/Split/Cache.antt =====
-- The table of separators that `startsplit` keeps from one call to the next.
use desh.Common.{
  ◌+◌, ◌≡◌, refl, ap, sym, ◌∙◌, ◌⊎◌, Bool, true, ◌&&◌, not, none, [], ltb, if◌then◌else◌, length,
  Str, streq, streq→eq, Bool-cases, inl, inr,
}
use desh.Split.{Splitter, separates, is_nil, ifs_size, remember, startsplit}

-- While `ifsvalid` is set, the table is that of the separators in `ifs`.
abbrev pub IsCached : Splitter → Type 0
IsCached st = st.ifsvalid ≡ true → st.isifs ≡ separates st.ifs

-- What `startsplit` sets up: the table of these separators, and an empty result.
pub record Starts (sep : Str) (coalescef : Bool) (st : Splitter) : Type 0 where
  pub table : st.isifs ≡ separates sep
  pub mode : st.coalesce ≡ coalescef
  pub chars : st.splitchars ≡ (not coalescef && is_nil sep)
  pub closed : st.buffer ≡ none
  pub blank : st.value ≡ []
  pub cached : IsCached st

-- After `remember` the table is that of `sep`, and the cache holds.
record Remembers (sep : Str) (st st' : Splitter) : Type 0 where
  table : st'.isifs ≡ separates sep
  mode : st'.coalesce ≡ st.coalesce
  chars : st'.splitchars ≡ st.splitchars
  closed : st'.buffer ≡ st.buffer
  blank : st'.value ≡ st.value
  cached : IsCached st'

-- The first conjunct of the test is the flag, the second compares the separators.
remember_cases :
    (sep : Str) (st : Splitter)
    → (((st.ifsvalid ≡ true) × (sep ≡ st.ifs)) × (remember sep st ≡ st))
      ⊎ (remember sep st ≡ record st {
        ifsvalid = ltb (length sep + 1) ifs_size;
        ifs = if ltb (length sep + 1) ifs_size then sep else st.ifs;
        isifs = separates sep;
      })
remember_cases sep st = elim (Bool-cases st.ifsvalid) [
  | inl v ↦ elim (Bool-cases (streq sep st.ifs)) [
    | inl e ↦ inl ((v, streq→eq sep st.ifs e), rw (v, e) refl)
    | inr e ↦ inr (rw (v, e) refl)
  ]
  | inr v ↦ inr (rw v refl)
]

remember-Remembers : (sep : Str) (st : Splitter) → IsCached st → Remembers sep st (remember sep st)
remember-Remembers sep st kept = elim (remember_cases sep st) [
  | inl ((v, e), same) ↦ rw same (record {
    table = kept v ∙ ap separates (sym e);
    mode = refl;
    chars = refl;
    closed = refl;
    blank = refl;
    cached = kept;
  })
  | inr new ↦ rw new (record {
    table = refl;
    mode = refl;
    chars = refl;
    closed = refl;
    blank = refl;
    cached = λ fits. ap separates (sym (fitted fits));
  })
]
  where
    fitted :
        ltb (length sep + 1) ifs_size ≡ true
        → (if ltb (length sep + 1) ifs_size then sep else st.ifs) ≡ sep
    fitted fits = rw fits refl

-- Whatever was split before, if the cached table is that of the cached separators, `startsplit` leaves the table of the separators that it is given, and a cache that holds for the next call.
pub startsplit-Starts :
    (sep : Str) (coalescef : Bool) (st : Splitter)
    → IsCached st
    → Starts sep coalescef (startsplit sep coalescef st)
unfolding startsplit
startsplit-Starts sep coalescef st kept =
    let r =
      remember-Remembers sep
        (record st {
          value = [];
          buffer = none;
          coalesce = coalescef;
          splitchars = not coalescef && is_nil sep;
        })
        kept in
    record {
      table = r.table;
      mode = r.mode;
      chars = r.chars;
      closed = r.closed;
      blank = r.blank;
      cached = r.cached;
    }
