-- ===== src/Eval.antt =====
-- src/eval.c, src/except.c and the bindings of src/closure.c and src/var.c: the evaluator.
pub mod State
pub mod Bindings
pub mod Throw
pub mod Let
pub mod For
pub mod Walk
pub mod Run
pub mod Ends
pub mod Unwinds
pub mod Throws
pub mod Catches
pub mod Words
pub mod Scopes
pub mod Walks
pub mod Calls
pub mod Commands
pub mod Settles
pub mod Rounds
pub mod Finds
pub mod Defines
mod Tests
