-- ===== src/Tests.antt =====
-- Examples: the theorems, applied to concrete extents, trees and buffers.
pub mod Linux
pub mod Toy
mod Extents
mod Units
mod Trees
mod Moves
mod Scans
mod Walks
mod Copies
mod Runs
mod Arguments
mod Rewrites
mod Resolved
