-- ===== src/Core.antt =====
-- The kernel's shared contracts (core/).
pub mod Schemas
pub mod Envelope
pub mod Metadata
pub mod Registry
pub mod Kernel
pub mod Codecs
pub mod Identity
pub mod Session
