-- ===== src/Build.antt =====
-- The objects that the controller renders from an instance, its pipeline and its source.
pub mod Labels
pub mod Env
pub mod Gpu
pub mod Job
