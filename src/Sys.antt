-- ===== src/Sys.antt =====
-- What the modules of src/sys do.
pub mod Affinity
pub mod Tuning
