-- ===== src/Context.antt =====
-- The package context, of which the metadata of evidence are modelled.
pub mod Chronology
