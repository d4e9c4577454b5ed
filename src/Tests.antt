-- ===== src/Tests.antt =====
-- A run of the task loop on concrete inputs: the ports are a small world that counts its calls.
pub mod Scenario
pub mod Examples
pub mod Rounds
pub mod Commands
pub mod Delegations
pub mod Kernels
pub mod Managers
pub mod Events
pub mod Scopes
