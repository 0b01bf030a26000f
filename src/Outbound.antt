-- ===== src/Outbound.antt =====
-- internal/outbound: the retry policy and the worker that delivers replies.
pub mod Retry
pub mod Delivery
pub mod Sender
mod Tests
