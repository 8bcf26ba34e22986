-- ===== src/Fd.antt =====
-- src/fd.c: descriptors of the shell and of its user.
pub mod State
pub mod Deferred
pub mod Newfd
pub mod Fresh
pub mod Count
pub mod Room
pub mod Undo
mod Tests
