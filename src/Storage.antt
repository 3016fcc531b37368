-- ===== src/Storage.antt =====
-- storage/: the retention of finished runs.
pub mod Catalog
pub mod Classifier
pub mod Census
pub mod References
pub mod BuildCatalog
pub mod Order
pub mod Plan
mod Samples
mod Tests
pub mod Collect
