-- ===== src/Supervisor.antt =====
-- The supervisor (supervisor/): the Blackboard, the command queue and the task loop.
pub mod State
pub mod Contracts
pub mod Bridge
pub mod Ports
pub mod Acceptance
pub mod Departments
pub mod Run
pub mod Turn
pub mod Round
pub mod Tools
pub mod Broker
pub mod Decide
pub mod Compose
pub mod Signature
pub mod Keeps
pub mod Loop
