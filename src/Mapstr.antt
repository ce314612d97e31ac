-- ===== src/Mapstr.antt =====
-- mapstr/mapstr.go: the map type `M` and its operations.
pub mod Value
pub mod Plain
pub mod Find
pub mod Merge
pub mod Clone
pub mod Tags
pub mod Flatten
pub mod Traverse
