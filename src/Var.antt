-- ===== src/Var.antt =====
-- src/var.c: variables that are defined for a scope.
pub mod Dictionary
pub mod State
pub mod Assign
pub mod Scope
mod Tests
