-- ===== src/Gateway.antt =====
-- internal/gateway: from an inbound event to a stored one.
pub mod Bindings
pub mod Model
pub mod Routing
pub mod Validate
pub mod Limiter
pub mod Accept
mod Tests
