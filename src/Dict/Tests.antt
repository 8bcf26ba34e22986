-- ===== src/Dict/Tests.antt =====
-- A short life of a dictionary, and the theorems at such inputs.
use desh.Common.{
  ℕ, ◌≡◌, refl, Option, none, some, ◌>>=◌, if◌then◌else◌, Str, codes, streq, [], ◌++◌,
}
use desh.Dict.Hash.{streq2, strhash, strhash2}
use desh.Dict.Insert.{IsDict}
use desh.Dict.Laws.{mkdict-dictget, dictput-dictget, dictget2-dictget}
use desh.Dict.{Dict, mkdict, dictget, dictget2, dictput}

strhash_runs : strhash (codes "path") ≡ strhash2 (codes "pa") (codes "th")
unfolding strhash strhash2
strhash_runs = refl

abbrev life : Option (Dict ℕ)
life =
    dictput mkdict (codes "a") (some 1)
    >>= (λ d. dictput d (codes "b") (some 2))
    >>= (λ d. dictput d (codes "c") (some 3))
    >>= (λ d. dictput d (codes "a") (some 4))
    >>= (λ d. dictput d (codes "b") none)

life_reads_a : (life >>= (λ d. dictget d (codes "a"))) ≡ some (some 4)
unfolding mkdict dictput dictget strhash
life_reads_a = refl

life_reads_b : (life >>= (λ d. dictget2 d [] (codes "b"))) ≡ some none
unfolding mkdict dictput dictget2 strhash strhash2 streq2
life_reads_b = refl

abbrev first_name : Str
first_name = codes "path"

dictput-dictget_example :
    (d : Dict ℕ) × (dictput mkdict first_name (some 7) ≡ some d)
    × IsDict d
    × ((j : Str) → dictget d j ≡ (if streq j first_name then some (some 7) else dictget mkdict j))
dictput-dictget_example = dictput-dictget mkdict first_name (some 7) (mkdict-dictget ℕ).0

mkdict-dictget_example :
    IsDict (mkdict {V = ℕ}) × ((j : Str) → dictget (mkdict {V = ℕ}) j ≡ some none)
mkdict-dictget_example = mkdict-dictget ℕ

dictget2-dictget_example :
    dictget2 dictput-dictget_example.0 (codes "pa") (codes "th")
    ≡ dictget dictput-dictget_example.0 (codes "pa" ++ codes "th")
dictget2-dictget_example = dictget2-dictget dictput-dictget_example.0 (codes "pa") (codes "th")
