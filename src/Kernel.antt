-- ===== src/Kernel.antt =====
-- kernel/ and contracts/: the decisions of the harness about a piece of work.
pub mod Contracts
pub mod Terminal
pub mod Risk
pub mod Verification
pub mod States
pub mod Validation
pub mod Contract
pub mod Red
pub mod Lineage
pub mod Provider
pub mod Qualification
mod Tests
