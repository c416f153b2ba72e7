-- ===== src/Notes.antt =====
-- Credit and debit notes: api/src/modules/notes.
pub mod Defs
pub mod Create
pub mod Taxes
pub mod Outcome
mod Tests
