-- ===== src/Rotate.antt =====
-- file: the log file that is rotated by size, by time and on startup (file/trigger.go, file/rotator.go).
pub mod Trigger
pub mod Names
pub mod Purge
pub mod Writer
