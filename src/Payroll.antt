-- ===== src/Payroll.antt =====
-- Salary slips and payroll runs: api/src/modules/payroll/payroll.service.ts with its schemas and DTOs.
pub mod Defs
pub mod Slips
pub mod Requests
pub mod Writes
pub mod Runs
pub mod Totals
pub mod Summary
pub mod Consistent
pub mod Frozen
pub mod Final
pub mod Late
mod Tests
