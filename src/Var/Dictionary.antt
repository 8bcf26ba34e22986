-- ===== src/Var/Dictionary.antt =====
-- What src/var.c uses of the dictionaries of src/dict.c, and that they provide it.
use desh.Common.{
  Option, none, some, ◌≡◌, sym, ◌∙◌, ap, if◌then◌else◌, if_push, refl, Str, streq, ◌++◌,
}
use desh.Dict.{Dict, dictget, dictget2}
use desh.Dict.Insert.{IsDict}
use desh.Dict.Laws.{dictput-dictget, dictget2-dictget}

pub record Dictionary (V : Type 0) : Type 1 where
  pub D : Type 0
  pub get : D → Str → Option V
  pub get2 : D → Str → Str → Option V
  pub put : D → Str → Option V → D
  pub get_put :
      (d : D) (k : Str) (v : Option V) (j : Str)
      → get (put d k v) j ≡ (if streq j k then v else get d j)
  pub get2_get : (d : D) (a b : Str) → get2 d a b ≡ get d (a ++ b)

module _ (V : Type 0) where
  abbrev join : Option (Option V) → Option V
  join none = none
  join (some v) = v

  unfoldable pub valid_dictionary : Dictionary V
  valid_dictionary = record {
    D = (d : Dict V) × IsDict d;
    get = λ (d, valid) j. join (dictget d j);
    get2 = λ (d, valid) a b. join (dictget2 d a b);
    put = λ (d, valid) k v. put_valid d k v valid;
    get_put = λ (d, valid) k v j. reads d k v valid j;
    get2_get = λ (d, valid) a b. ap join (dictget2-dictget d a b);
  }
    where
      put_valid : (d : Dict V) → Str → Option V → IsDict d → (d' : Dict V) × IsDict d'
      put_valid d k v valid =
          let (d', run, valid', same) = dictput-dictget d k v valid in (d', valid')

      reads :
          (d : Dict V) (k : Str) (v : Option V) (valid : IsDict d) (j : Str)
          → join (dictget ((put_valid d k v valid).0) j)
            ≡ (if streq j k then v else join (dictget d j))
      reads d k v valid j =
          let (d', run, valid', same) = dictput-dictget d k v valid in
          ap join (same j) ∙ sym (if_push join (streq j k) (some v) (dictget d j) refl refl)
