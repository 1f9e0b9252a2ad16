-- ===== src/Arch.antt =====
-- kernel/arch_sim/mod.rs: the two simulators that the shell's trace feeds.
pub mod Pipeline
pub mod Cache
pub mod Events
mod Tests
