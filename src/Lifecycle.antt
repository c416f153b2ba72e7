-- ===== src/Lifecycle.antt =====
-- Onboarding and exit of employees: api/src/modules/lifecycle/lifecycle.service.ts, its schemas and
-- DTOs. The service writes two collections of its own, and employees through their service.
pub mod Defs
pub mod Onboarding
pub mod Exits
pub mod Steps
pub mod Settlement
pub mod OneOpen
pub mod Checklist
mod Tests
pub use Defs.*
