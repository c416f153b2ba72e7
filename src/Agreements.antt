-- ===== src/Agreements.antt =====
-- Agreements and their signatures: api/src/modules/agreements with its schema and DTOs.
pub mod Defs
pub mod Signing
pub mod Handlers
pub mod Contract
pub mod Writes
pub mod TermWrites
pub mod Requests
pub mod Evidence
pub mod Signed
pub mod Gates
pub mod Reuse
mod Tests
