-- ===== src/Shell.antt =====
-- media/shell_source.rs: command lines that the user writes.
pub mod Tokenize
pub mod Flags
pub mod Seek
pub mod Source
