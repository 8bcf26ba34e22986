-- ===== src/Opt.antt =====
-- src/opt.c: the parser of options. The static variables of the file are the state.
pub mod Progress
pub mod Errors
mod Tests
use desh.Common.{
  ℕ, ◌+◌, ◌≡◌, Bool, true, false, ◌&&◌, Option, none, some, List, [], ◌∷◌, ◌==◌, if◌then◌else◌, Str,
  drop, char_at,
}

-- `args` holds terms of type `T`; `usage` is NULL outside of a parse.
pub record OptState (T : Type 0) : Type 0 where
  pub usage : Option Str
  pub invoker : Str
  pub args : List T
  pub termarg : Option T
  pub nextchar : ℕ

-- The two calls of `fail`, with the option and the usage message.
pub data OptFailure : Type 0 where
  illegal_option expects_argument : ℕ → Str → OptFailure

-- How a call ends: `option` is an option that `esopt` returns, `eof` its EOF. `overread` is a read
-- behind the NUL of a string.
pub data Parsed (T : Type 0) : Type 0 where
  eof : OptState T → Parsed T
  option : ℕ → OptState T → Parsed T
  failed : OptFailure → OptState T → Parsed T
  assert_failed overread : Parsed T

-- `strchr` of the C library: the string from the byte on. The NUL at the end is a byte too.
abbrev pub strchr : Str → ℕ → Option Str
strchr [] c = if c == 0 then some [] else none
strchr (x ∷ s) c = if x == c then some (x ∷ s) else strchr s c

-- `s + 1`; `none` lies behind the NUL.
abbrev pub behind : Str → Option Str
behind [] = none
behind (c ∷ s) = some s

-- `opt[1] == ':'`
abbrev pub takes_argument : Str → Bool
takes_argument [] = false
takes_argument (c ∷ []) = false
takes_argument (c ∷ d ∷ s) = d == b':'

-- `*arg != '-'` does not hold.
abbrev pub is_option : Str → Bool
is_option [] = false
is_option (c ∷ s) = c == b'-'

-- `arg[1] == '-' && arg[2] == '\0'`
abbrev pub is_last : Str → Bool
is_last (c ∷ d ∷ []) = d == b'-'
is_last s = false

module _ {T : Type 0} where
  unfoldable pub esoptbegin : List T → Str → Str → OptState T → Option (OptState T)
  esoptbegin list caller usagemsg st = begin st.usage
    where
      begin : Option Str → Option (OptState T)
      begin (some u) = none
      begin none = some (record {
        usage = some usagemsg;
        invoker = caller;
        args = list;
        termarg = none;
        nextchar = 0;
      })

  unfoldable pub esoptarg : OptState T → Option (T × OptState T)
  esoptarg st = take_term st.termarg
    where
      take_term : Option T → Option (T × OptState T)
      take_term none = none
      take_term (some t) = some (t, record st { termarg = none })

  unfoldable pub esoptend : OptState T → List T × OptState T
  esoptend st = (st.args, record st { args = []; usage = none })

module _ {T : Type 0} (getstr : T → Str) (mkstr : Str → T) where
  -- `if (opt[1] == ':')`, with the rest `p` of the word and the terms in `args`.
  unfoldable pub esopt_argument : ℕ → Str → Str → List T → OptState T → Parsed T
  esopt_argument c usage p [] st = Parsed.failed (OptFailure.expects_argument c usage) st
  esopt_argument c usage [] (t ∷ args) st =
      Parsed.option c (record st { termarg = some t; nextchar = 0; args = args })
  esopt_argument c usage (x ∷ p) (t ∷ args) st =
      Parsed.option c (record st { termarg = some (mkstr (x ∷ p)); nextchar = 0; args = args })

  -- From the result of `strchr` on; `args` are the terms from the word on. `p` is what `arg +
  -- nextchar` points to: the word behind the option, or `none` behind its NUL.
  unfoldable pub esopt_found :
      ℕ → Str → Option Str → ℕ → List T → Option Str → OptState T → Parsed T
  unfolding esopt_argument
  esopt_found c usage p n args none st =
      Parsed.failed (OptFailure.illegal_option c usage)
        (record st { usage = none; args = []; nextchar = 0 })
  esopt_found c usage none n args (some opt) st = Parsed.overread
  esopt_found c usage (some []) n [] (some opt) st = Parsed.assert_failed
  esopt_found c usage (some []) n (t ∷ args) (some opt) st =
      let st' = record st { nextchar = 0; args = args } in
      if takes_argument opt then esopt_argument c usage [] args st' else Parsed.option c st'
  esopt_found c usage (some (x ∷ p)) n args (some opt) st =
      let st' = record st { nextchar = n + 1 } in
      if takes_argument opt then esopt_argument c usage (x ∷ p) args st' else Parsed.option c st'

  -- From `c = arg[nextchar++]` on, which can be the NUL.
  unfoldable pub esopt_at : Str → Str → Str → ℕ → List T → OptState T → Parsed T
  unfolding esopt_found
  esopt_at options usage s n args st =
      esopt_found (char_at s 0) usage (behind s) n args (strchr options (char_at s 0)) st

  -- The first test, for a word that has not been begun.
  unfoldable pub esopt_word : Str → Str → List T → OptState T → Parsed T
  unfolding esopt_at
  esopt_word options usage [] st = Parsed.eof st
  esopt_word options usage (t ∷ args) st =
      if is_option (getstr t)
      then (if is_last (getstr t)
          then Parsed.eof (record st { args = args })
          else esopt_at options usage (drop 1 (getstr t)) 1 (t ∷ args) st)
      else Parsed.eof st

  -- The word that has been begun.
  unfoldable pub esopt_inside : Str → Str → ℕ → List T → OptState T → Parsed T
  unfolding esopt_at
  esopt_inside options usage n [] st = Parsed.assert_failed
  esopt_inside options usage n (t ∷ args) st =
      esopt_at options usage (drop n (getstr t)) n (t ∷ args) st

  -- The assertions at the start.
  unfoldable pub esopt_begun : Str → Option Str → Option T → OptState T → Parsed T
  unfolding esopt_word esopt_inside
  esopt_begun options none termarg st = Parsed.assert_failed
  esopt_begun options (some usage) (some t) st = Parsed.assert_failed
  esopt_begun options (some usage) none st =
      if st.nextchar == 0
      then esopt_word options usage st.args st
      else esopt_inside options usage st.nextchar st.args st

  unfoldable pub esopt : Str → OptState T → Parsed T
  unfolding esopt_begun
  esopt options st = esopt_begun options st.usage st.termarg st
