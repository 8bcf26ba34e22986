-- ===== src/Conv.antt =====
-- src/conv.c: strings printed so that the shell can read them back.
pub mod Quote
pub mod Reads
pub mod Octal
pub mod Pieces
pub mod Joined
pub mod Plain
pub mod RoundTrip
pub mod Losses
mod Tests
