-- ===== src/Lib.antt =====
-- A model of the core of desh, an extensible shell written in C, with theorems about it.
--
-- The program is an interpreter: input.cpp, token.c, parse.y and heredoc.c turn text into syntax trees
-- (tree.c, syntax.c); eval.c walks them; glom.cpp and glob.cpp turn words into lists of terms (list.c,
-- term.c); var.c keeps variables in the dictionaries of dict.c; match.c and split.c are the pattern
-- matcher and the splitter that both the evaluator (`~`, `~~`, backquotes) and the primitives of
-- prim-*.c call; fd.c, proc.c, signal.c and status.c deal with the operating system; gc.c manages all
-- memory; conv.c and print.c turn values back into text.
--
-- Each module names the file of the repository that it models, with the function names of the C code.
--   Common    booleans, lists and strings that all modules share. A `char *` is the list of its bytes
--             up to the NUL (Common/Text); reading behind the end gives 0.
--   Match     src/match.c. `Quote` is a quote string, UNQUOTED or QUOTED; `rangematch`, `match` and
--             `haswild` follow the loops of the C code. Match/Class, Match/Items and Match/Reflects
--             give patterns an independent meaning as a relation; Match/Words is `listmatch`,
--             Match/Extract `extractsinglematch` and `extractmatches`. The pointer `q` of `rangematch`
--             goes on from UNQUOTED and QUOTED; what stands behind them in the linked program is the
--             parameter `Memory`.
--   Dict      src/dict.c, with `streq2` of src/util.c. A dictionary is the table of slots (NULL, DEAD or
--             an association) with the count `remain`; the hash is in Dict/Hash with its 32-bit
--             arithmetic. Its specification is the map from names that `dictget` shows.
--   Split     src/split.c and the `%L` conversion of src/conv.c. The static variables are the record
--             `Splitter`, passed from call to call. `checked_splitstring` is `splitstring` with its assertion.
--   Glom      src/glom.cpp, with `getstr` and `termcat` of src/term.c. `glom1` and `glom2` walk the tree
--             of a word in the order of the C code and pass the state of the shell on; the evaluator,
--             variables, directories and `atoi` are the functions of the record `Shell`. A use of NULL
--             or an assertion that fails is the outcome `null_read`.
--   Opt       src/opt.c. The static variables are the record `OptState`; a read behind the end of a
--             word is the outcome `overread`.
--   Env       src/conv.c (`%F`, `%N`, `%W`) and src/var.c (`mkenv0`, `importvar`, `initenv`): variables as
--             environment strings. The calls of `vardef` are the result of `initenv`.
--   Token     src/token.c. The static variables are the record `Lexer`, its input a list of bytes with
--             EOF at its end; `yylex` is the function of that name, with a function for each case of
--             its switch, and ctype.h a parameter. The token buffer has no counterpart.
--   Conv      src/conv.c (`%S`), which prints strings for the lexer, and the productions of
--             src/parse.y that join tokens to a word (`Reads`).
--   Fd        src/fd.c. The stack of deferred operations, the list of reserved descriptors and the
--             variables that it points to are the record `FdState`; dup, dup2 and close are parameters.
--             `newfd` has fuel for its calls of itself, one more than there are operations.
--             Fd/Count and Fd/Room go through the growth of the stack, which takes its entries off the list
--             and puts them back; the growth of the list itself has no counterpart.
--   Var       src/var.c: varpush, varpop, the calls of settors and the end of vardef. What they use of a
--             dictionary is the record `Dictionary` (Var/Dictionary), which the theorems of Dict fill; the
--             evaluator is a parameter. Calls end as an `Outcome`. mkenv and setnoexport are not modelled.
--   Eval      src/eval.c, src/except.c, the bindings of src/closure.c and src/var.c, and `getclosure` and
--             `termeq` of src/term.c. Eval/State has the state: the store of bindings, in which the number
--             of a binding stands for its address, the handlers, the exception and the depth, beside the
--             variables of Var. Eval/Bindings has `mkbinding`, `varlookup` and `vardef`, Eval/Throw the
--             handlers and `throw_exception`, Eval/Let, Eval/For and Eval/Walk the functions that `walk`
--             calls, Eval/Run `eval`. They call `glom` (Glom/Walk), `listmatch` and `extractmatches` (Match),
--             `varpush` and `varpop` (Var) and `istrue` (Status). The primitives, `parsestring`, `glob`,
--             `forkexec` and pending signals are the functions of the record `Outside`. `longjmp` is the
--             failure `jump`, which calls pass on, and a failure that is no jump is one that `fail_in` has
--             still to throw. The functions that call each other are the record `Rec`, and `run` is the
--             evaluator with a depth of recursion as its fuel, since a program of the shell need not end.
--             Eval/Ends has the ways in which a call can end; Eval/Unwinds, Throws, Catches, Words, Scopes,
--             Walks, Calls, Commands and Settles go through the functions with them. Eval/Finds and Defines
--             are about `vardef`, Eval/Rounds about loops.
--             Terms are values: that `getclosure` turns a string that other lists share into a closure is
--             not modelled.
--   Status    src/status.c: `istrue` and `exitstatus`, with `strtol` as a parameter.
--
-- Loops that the C code bounds by data are structural recursion. `match` and `extractsinglematch` have
-- the length of the pattern plus one as fuel, since every round consumes pattern; the loops of a
-- dictionary have its size, since a table always keeps a slot that is NULL; the theorems show that the
-- fuel is enough. An assertion that fails is a result of its own (`assert_failed`). C strings that
-- share memory are copied nowhere in these files, so strings and lists are values; `DictCopy`,
-- `DictScan` and the rest of the collector (src/gc.c) are not modelled, nor is anything that consists of
-- calls of the operating system, the terminal library or the decimal library.
pub mod Common
pub mod Match
pub mod Dict
pub mod Split
pub mod Glom
pub mod Opt
pub mod Status
pub mod Env
pub mod Token
pub mod Conv
pub mod Fd
pub mod Var
pub mod Eval
