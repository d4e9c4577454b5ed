-- ===== src/Control.antt =====
-- The control plane (control/): commands, their registry, and permissions.
pub mod Command
pub mod CommandRegistry
pub mod Permission
pub mod Event
pub mod EventRegistry
pub mod Redaction
pub mod Emitter
pub mod Checkpoint
