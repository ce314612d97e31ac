-- ===== src/Monitoring.antt =====
-- monitoring: the registry of the metrics and what is read from it.
pub mod Options
pub mod Registry
pub mod Visit
