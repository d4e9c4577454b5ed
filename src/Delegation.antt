-- ===== src/Delegation.antt =====
-- delegation/: the checks on a delegation, the record of its progress, and who takes it.
pub mod Policy
pub mod Store
pub mod Handling
pub mod Manager
pub mod Targets
