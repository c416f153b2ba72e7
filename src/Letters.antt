-- ===== src/Letters.antt =====
-- HR letters: api/src/modules/letters with its schema and DTOs.
pub mod Defs
pub mod Steps
mod Tests
