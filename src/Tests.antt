-- ===== src/Tests.antt =====
-- Runs of the code on small inputs, and instances of the theorems.
pub mod Maps
pub mod Merges
pub mod Safe
pub mod Versions
pub mod Numbers
pub mod Dissects
pub mod Rotations
pub mod Matches
pub mod Traversals
pub mod Registries
pub mod Writers
pub mod Disks
pub mod Clouds
