-- ===== src/Numbering.antt =====
-- Document numbers: api/src/modules/invoices/services/invoice-number.service.ts and its counters.
pub mod Defs
pub mod Format
pub mod Gapless
mod Tests
pub use Defs.*
