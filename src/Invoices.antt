-- ===== src/Invoices.antt =====
-- Invoices: api/src/modules/invoices.
pub mod Rates
pub mod Defs
pub mod Handlers
pub mod Create
pub mod Changes
pub mod Outcome
pub mod Numbers
pub mod Next
pub mod Gapless
pub mod Amounts
pub mod Charged
pub mod Untaxed
pub mod Requests
pub mod Settled
mod Tests
