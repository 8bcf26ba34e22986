-- ===== src/Glom/Terms.antt =====
-- The data of src/glom.cpp: syntax trees of words, terms, and how a call ends.
use desh.Common.{ℕ, Option, Str}

-- What `atoi` returns.
pub data ℤ : Type 0 where
  pos negsuc : ℕ → ℤ

-- The kinds of trees that no word is made of.
pub data NodeKind : Type 0 where
  assign_node closure_node for_node let_node local_node match_node extract_node redir_node :
      NodeKind

-- `null` is the NULL pointer. The kinds of words have constructors of their own.
pub data Tree : Type 0 where
  null : Tree
  word qword prim : Str → Tree
  thunk var call : Tree → Tree
  lambda varsub list concat : Tree → Tree → Tree
  other : NodeKind → Tree → Tree → Tree

-- A term is a string or a closure: a tree with the bindings that it was made in.
pub data Term (Binding : Type 0) : Type 0 where
  text : Str → Term Binding
  closure : Tree → Option Binding → Term Binding

-- The calls of `fail`; a jump to a handler, which `throw_exception` has chosen, or the end of the
-- process, or of the fuel, on which the model of a function runs.
pub data Failure : Type 0 where
  bad_subscript : Str → Failure
  null_name multi_word_name : Failure
  bad_node : NodeKind → Failure
  zero_length_name too_deep : Failure
  illegal_name null_variable no_pathsearch : Str → Failure
  not_executable : Str → Str → Failure
  jump out_of_fuel : Failure
  exit : ℕ → Failure

-- How a call ends. `null_read` is the use of a NULL pointer, or an assertion that fails.
pub data Outcome {ℓ} (A : Type ℓ) : Type ℓ where
  value : A → Outcome A
  failed : Failure → Outcome A
  null_read : Outcome A
