-- ===== src/Glom.antt =====
-- src/glom.cpp: from the tree of a word to a list of terms.
pub mod Terms
pub mod Concat
pub mod Quotes
pub mod Rows
pub mod Walk
pub mod Agree
pub mod Cross
mod Tests
pub mod Subscript
