-- ===== src/Auth.antt =====
-- Sessions: api/src/modules/auth/auth.service.ts and its schema of refresh tokens.
pub mod Defs
pub mod Rotation
mod Tests
