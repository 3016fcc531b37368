-- ===== src/Mutation.antt =====
-- The authority that turns an agent's text into one change of one file: kernel/mutation_authority.py
-- and kernel/mutation_proposal_contract.py, with the paths of evidence/command_runner.py.
pub mod Text
pub mod Bytes
pub mod Paths
pub mod Proposal
pub mod Files
pub mod Validation
pub mod Gates
pub mod Apply
pub mod Execute
pub mod Samples
mod Tests
mod GateTests
