-- ===== src/EInvoicing.antt =====
-- E-invoices: api/src/modules/einvoicing.
pub mod Defs
pub mod Handlers
pub mod Writes
pub mod InTime
mod Tests
