-- ===== src/Split/Tests.antt =====
-- Runs of the splitter, and the theorems at concrete inputs.
use desh.Common.{some, ◌>>=◌, ◌≡◌, refl, true, false, none, List, [], ◌∷◌, ◌++◌, Str, codes, arith}
use desh.Split.{
  checked_split_all, split_all, Splitter, startsplit, splitstring, checked_splitstring, fsplit,
}
use desh.Split.Cache.{IsCached, Starts, startsplit-Starts}
use desh.Split.Fields.{all_pieces}
use desh.Split.Laws.{fsplit-all_pieces}
use desh.Split.Safe.{startsplit-split_all}
use desh.Split.Chunks.{splitstring-splitstring}
use desh.Split.Join.{join, IsText, IsField, AllFields, join-fsplit, fsplit-join}

-- The static variables at the start of the program.
abbrev initial : Splitter
initial = record {
  coalesce = false;
  splitchars = false;
  buffer = none;
  value = [];
  ifsvalid = false;
  ifs = [];
  isifs = λ c. false;
}

initial-IsCached : IsCached initial
initial-IsCached h = ground arith

abbrev colons : Str
colons = codes ":"

abbrev path : List Str
path = codes "/bin::/usr/bin" ∷ codes "x" ∷ []

fsplit_keeps_empty :
    (fsplit colons path false initial).0 ≡ codes "/bin" ∷ [] ∷ codes "/usr/bin" ∷ codes "x" ∷ []
unfolding fsplit startsplit splitstring
fsplit_keeps_empty = refl

fsplit_coalesces :
    (fsplit colons path true initial).0 ≡ codes "/bin" ∷ codes "/usr/bin" ∷ codes "x" ∷ []
unfolding fsplit startsplit splitstring
fsplit_coalesces = refl

fsplit_at_every_byte : (fsplit [] (codes "ab" ∷ []) false initial).0 ≡ codes "a" ∷ codes "b" ∷ []
unfolding fsplit startsplit splitstring
fsplit_at_every_byte = refl

startsplit-Starts_example : Starts colons true (startsplit colons true initial)
startsplit-Starts_example = startsplit-Starts colons true initial initial-IsCached

fsplit-all_pieces_example :
    ((fsplit colons path true initial).0 ≡ all_pieces colons true path)
    × Starts colons true (fsplit colons path true initial).1
fsplit-all_pieces_example = fsplit-all_pieces colons path true initial initial-IsCached

splitstring-splitstring_example :
    (checked_splitstring (codes "/b") false (startsplit colons true initial)
      >>= (λ st'. checked_splitstring (codes "in:b") true st'))
    ≡ checked_splitstring (codes "/b" ++ codes "in:b") true (startsplit colons true initial)
splitstring-splitstring_example =
    splitstring-splitstring (codes "/b") (codes "in:b") true (startsplit colons true initial)

abbrev line : Str
line = 97 ∷ 58 ∷ 98 ∷ []

line-IsText : IsText line
line-IsText =
    IsText.cons (ground arith) (IsText.cons (ground arith) (IsText.cons (ground arith) IsText.nil))

join-fsplit_example : join (58 ∷ []) (fsplit (58 ∷ []) (line ∷ []) false initial).0 ≡ line
join-fsplit_example = join-fsplit 58 line initial initial-IsCached line-IsText

one_word-IsField : IsField 58 (97 ∷ [])
one_word-IsField = IsField.cons (ground arith) (ground arith) IsField.nil

fsplit-join_example :
    (fsplit (58 ∷ []) (join (58 ∷ []) ((97 ∷ []) ∷ [] ∷ []) ∷ []) false initial).0
    ≡ (97 ∷ []) ∷ [] ∷ []
fsplit-join_example =
    fsplit-join 58 (97 ∷ []) ([] ∷ []) initial initial-IsCached
      (AllFields.cons one_word-IsField (AllFields.cons IsField.nil AllFields.nil))

startsplit-split_all_example :
    checked_split_all path (startsplit [] false initial)
    ≡ some (split_all path (startsplit [] false initial))
startsplit-split_all_example = startsplit-split_all [] false path initial
