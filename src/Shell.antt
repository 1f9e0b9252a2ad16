-- ===== src/Shell.antt =====
-- kernel/shell/mod.rs, the shell's own helpers.
pub mod Number
pub mod History
pub mod Line
pub mod Tokens
mod Tests
