-- ===== src/Env/Tests.antt =====
-- Runs of the export and import of variables, and the theorems at concrete inputs.
use desh.Common.{◌≡◌, refl, false, ◌&&◌, ◌||◌, none, some, List, [], ◌∷◌, leb, Str, codes, arith}
use desh.Split.{Splitter}
use desh.Split.Cache.{IsCached}
use desh.Env.{Ctype, fconv, nconv, wconv, importvar, initenv}
use desh.Env.Names.{IsBytes, IsCtype, nconv-fconv}
use desh.Env.Words.{Shape, plain, escape, separated, IsPlain, AllShapes}
use desh.Env.Environment.{Variable, strings, Imports, initenv-Imports}
use desh.Env.Losses.{importvar_two_separators}

-- The letters and digits of the C locale.
abbrev ascii : Ctype
ascii = record {
  isalpha = λ c. (leb b'A' c && leb c b'Z') || (leb b'a' c && leb c b'z');
  isalnum =
      λ c. (leb b'A' c && leb c b'Z') || (leb b'a' c && leb c b'z') || (leb b'0' c && leb c b'9');
}

ascii-IsCtype : IsCtype ascii
ascii-IsCtype = (refl, refl, refl, refl)

abbrev unused : Splitter
unused = record {
  coalesce = false;
  splitchars = false;
  buffer = none;
  value = [];
  ifsvalid = false;
  ifs = [];
  isifs = λ c. false;
}

unused-IsCached : IsCached unused
unused-IsCached h = ground arith

fconv_encodes : fconv ascii (codes "fn-a__b") ≡ codes "fn__2da__5f_b"
unfolding fconv
fconv_encodes = refl

nconv_decodes : nconv (codes "fn__2da__5f_b") ≡ some (codes "fn-a__b")
unfolding nconv
nconv_decodes = refl

abbrev name : Str
name = codes "fn-x"

name-IsBytes : IsBytes name
name-IsBytes = omega arith

nconv-fconv_example : nconv (fconv ascii name) ≡ some name
nconv-fconv_example = nconv-fconv ascii ascii-IsCtype name name-IsBytes

letter-IsPlain : IsPlain (97 ∷ [])
letter-IsPlain = (ground arith, ground arith, ground arith, tt)

other-IsPlain : IsPlain (98 ∷ [])
other-IsPlain = (ground arith, ground arith, ground arith, tt)

abbrev shapes : List Shape
shapes = escape (97 ∷ []) (98 ∷ []) ∷ plain (98 ∷ []) ∷ []

shapes-AllShapes : AllShapes (separated (97 ∷ []) (98 ∷ []) ∷ shapes)
shapes-AllShapes =
    ((letter-IsPlain, other-IsPlain), ((letter-IsPlain, other-IsPlain), (other-IsPlain, tt)))

abbrev variables : List Variable
variables = record { name = name; word = separated (97 ∷ []) (98 ∷ []); words = shapes } ∷ []

initenv-Imports_example :
    Imports false variables
      (record { raw = []; vardefs = []; splitter = unused })
      (initenv (strings ascii variables) false unused)
initenv-Imports_example =
    initenv-Imports ascii false variables unused ascii-IsCtype unused-IsCached
      (name-IsBytes, shapes-AllShapes, tt)

importvar_two_separators_example :
    (importvar (b'=' ∷ wconv ((97 ∷ 1 ∷ 98 ∷ 1 ∷ 97 ∷ []) ∷ [])) unused).0
    ≡ (97 ∷ 1 ∷ 98 ∷ 2 ∷ []) ∷ (97 ∷ []) ∷ []
importvar_two_separators_example =
    importvar_two_separators (97 ∷ []) (98 ∷ []) (97 ∷ []) unused unused-IsCached letter-IsPlain
      other-IsPlain letter-IsPlain
