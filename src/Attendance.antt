-- ===== src/Attendance.antt =====
-- Attendance and leave: api/src/modules/attendance with its schemas and DTOs.
pub mod Defs
pub mod Handlers
pub mod Overlap
pub mod Marks
mod Tests
