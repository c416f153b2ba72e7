-- ===== src/Employees.antt =====
-- Employees: api/src/modules/employees/employees.service.ts with its schema and DTOs. An operation
-- takes the store of the two collections that the service writes, and returns it with its answer.
pub mod Defs
pub mod Status
pub mod StatusOnly
mod Tests
pub use Defs.*
