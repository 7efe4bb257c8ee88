-- ===== src/Kernel.antt =====
-- src/kernel.rs: what the program asks of the btrfs kernel, and what it makes of the answers.
pub mod Search
pub mod Tally
pub mod Os
pub mod Frozen
pub mod Keeps
pub mod Files
pub mod Refs
pub mod Backrefs
pub mod Subvolumes
pub mod Resolve
pub mod Walk
