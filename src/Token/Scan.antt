-- ===== src/Token/Scan.antt =====
-- src/token.c: the loops of `yylex` over words, descriptors and quoted strings.
use desh.Common.{ℕ, suc, ◌+◌, ◌-◌, ◌*◌, Bool, List, [], ◌∷◌, ◌==◌, if◌then◌else◌, Str, codes}
use desh.Token.State.{Meta, is_meta, FdEnd, closed_fd, fd, between}

-- `do … while ((c = GETC()) != EOF && !meta[(unsigned char) c])` behind the first byte: the bytes of
-- the word, and what is left.
unfoldable pub word_bytes : Meta → List ℕ → Str × List ℕ
unfolding is_meta
word_bytes meta [] = ([], [])
word_bytes meta (c ∷ s) =
    let (w, rest) = word_bytes meta s in if is_meta meta c then ([], c ∷ s) else (c ∷ w, rest)

abbrev pub is_digit : ℕ → Bool
is_digit c = between b'0' b'9' c

-- `while ((c = GETC() - '0') <= 9) n = n * 10 + c`; what is left starts at the byte that ends it.
-- The source computes in an int, which the numbers of descriptors stay far below.
unfoldable pub read_number : ℕ → List ℕ → ℕ × List ℕ
read_number n [] = (n, [])
read_number n (c ∷ s) =
    let rest = read_number (n * 10 + (c - b'0')) s in if is_digit c then rest else (n, c ∷ s)

-- What `getfds` finds, or the message of `scanerror`, and what is left.
pub data Fds : Type 0 where
  fds : ℕ → FdEnd → List ℕ → Fds
  bad_fds : Str → List ℕ → Fds

-- Behind the digits that follow `=`.
unfoldable pub fds_end : ℕ → ℕ × List ℕ → Fds
fds_end n (m, []) = bad_fds (codes "expected ']' after digit") []
fds_end n (m, c ∷ s) =
    if c == b']' then fds n (fd m) s else bad_fds (codes "expected ']' after digit") s

-- `case '='`
unfoldable pub fds_equals : ℕ → List ℕ → Fds
unfolding fds_end read_number
fds_equals n [] = bad_fds (codes "expected digit or ']' after '='") []
fds_equals n (c ∷ s) =
    if is_digit c
    then fds_end n (read_number (c - b'0') s)
    else if c == b']'
    then fds n closed_fd s
    else bad_fds (codes "expected digit or ']' after '='") s

-- The switch behind the first number.
unfoldable pub fds_switch : FdEnd → ℕ × List ℕ → Fds
unfolding fds_equals
fds_switch second (n, []) = bad_fds (codes "expected '=' or ']' after digit") []
fds_switch second (n, c ∷ s) =
    if c == b'='
    then fds_equals n s
    else if c == b']'
    then fds n second s
    else bad_fds (codes "expected '=' or ']' after digit") s

-- Behind the `[`.
unfoldable pub fds_first : FdEnd → List ℕ → Fds
unfolding fds_switch read_number
fds_first second [] = bad_fds (codes "expected digit after '['") []
fds_first second (c ∷ s) =
    if is_digit c
    then fds_switch second (read_number (c - b'0') s)
    else bad_fds (codes "expected digit after '['") s

-- `getfds`, from its argument `c` on.
unfoldable pub getfds : List ℕ → ℕ → FdEnd → Fds
unfolding fds_first
getfds [] first second = fds first second []
getfds (c ∷ s) first second = if c == b'[' then fds_first second s else fds first second (c ∷ s)

-- The end of the loop over a quoted string: the string, or an interrupt, or EOF, with the calls of
-- `print_prompt2` and what is left.
pub data Quoted : Type 0 where
  closed : Str → ℕ → List ℕ → Quoted
  interrupted : ℕ → List ℕ → Quoted
  unclosed : ℕ → Quoted

abbrev pub push : ℕ → ℕ → Quoted → Quoted
push c n (closed s m rest) = closed (c ∷ s) (n + m) rest
push c n (interrupted m rest) = interrupted (n + m) rest
push c n (unclosed m) = unclosed (n + m)

-- A line that is continued.
abbrev pub continue_line : Quoted → Quoted
continue_line (closed s m rest) = closed s (suc m) rest
continue_line (interrupted m rest) = interrupted (suc m) rest
continue_line (unclosed m) = unclosed (suc m)

-- A byte that stands for itself, with the rounds behind it.
abbrev pub plain_byte : ℕ → List ℕ → Quoted → Quoted
plain_byte c s next =
    if c == 0 then interrupted 0 s else if c == 10 then push c 1 next else push c 0 next

-- `for (;;)` under `case '\''` and `case '"'`.
unfoldable pub quoted_string : ℕ → List ℕ → Quoted
quoted_string quote [] = unclosed 0
quoted_string quote (c ∷ []) =
    if c == quote
    then closed [] 0 []
    else if c == b'\\'
    then push c 0 (unclosed 0)
    else plain_byte c [] (unclosed 0)
quoted_string quote (c ∷ d ∷ s) =
    let both = quoted_string quote s in
    let one = quoted_string quote (d ∷ s) in
    if c == quote
    then (if d == quote then push quote 0 both else closed [] 0 (d ∷ s))
    else if c == b'\\'
    then (if d == 10
        then continue_line both
        else if d == quote
        then push quote 0 both
        else push c 0 one)
    else plain_byte c (d ∷ s) one
