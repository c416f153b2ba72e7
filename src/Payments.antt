-- ===== src/Payments.antt =====
-- Payments over Razorpay: api/src/modules/payments.
pub mod Defs
pub mod Handlers
pub mod Webhook
pub mod Once
mod Tests
