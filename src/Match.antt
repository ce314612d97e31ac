-- ===== src/Match.antt =====
-- match: matchers compiled from regular expressions, with cheaper matchers for common ones.
pub mod Regex
pub mod Classify
pub mod Matchers
pub mod Compile
pub mod Meaning
