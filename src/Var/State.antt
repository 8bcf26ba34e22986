-- ===== src/Var/State.antt =====
-- src/var.c: the static variables, and the tests of names.
use desh.Common.{
  Bool, true, false, ◌&&◌, ◌||◌, not, Option, none, some, List, [], ◌∷◌, ◌==◌, if◌then◌else◌, Str,
  leb,
}
use desh.Var.Dictionary.{Dictionary}

-- `flags` holds whether `var_hasbindings` and `var_isinternal` are set; `env` is the string that
-- the environment has for the variable, if there is one.
pub record Var (T : Type 0) : Type 0 where
  pub env : Option Str
  pub defn : List T
  pub hasbindings_flag : Bool
  pub isinternal_flag : Bool

pub record Push (T : Type 0) : Type 0 where
  pub name : Str
  pub pushed : List T
  pub pushed_hasbindings : Bool
  pub pushed_isinternal : Bool

-- `rest` is the state of the other parts of the shell.
pub record Vars (T : Type 0) (dict : Dictionary (Var T)) (X : Type 0) : Type 0 where
  pub vars : dict.D
  pub noexport : Option (Str → Bool)
  pub isdirty : Bool
  pub pushlist : List (Push T)
  pub rest : X

-- `specialvar`
unfoldable pub specialvar : Str → Bool
specialvar [] = false
specialvar (c ∷ []) = (c == b'*') || (c == b'0')
specialvar (c ∷ d ∷ s) = false

abbrev pub all_digits : Str → Bool
all_digits [] = true
all_digits (c ∷ s) = (leb b'0' c && leb c b'9') && all_digits s

-- `iscounting`: zeros, and then digits, at least one
unfoldable pub iscounting : Str → Bool
iscounting [] = false
iscounting (c ∷ s) = let rest = iscounting s in if c == b'0' then rest else all_digits (c ∷ s)

-- Whether `validatevar` returns.
unfoldable pub validatevar : Str → Bool
unfolding iscounting
validatevar [] = false
validatevar (c ∷ s) = not (iscounting (c ∷ s))

-- `isexported`, where `noexport` says which names are in that dictionary.
unfoldable pub isexported : Option (Str → Bool) → Str → Bool
unfolding specialvar
isexported noexport name =
    not (specialvar name) && elim noexport [ none ↦ true | some names ↦ not (names name) ]
