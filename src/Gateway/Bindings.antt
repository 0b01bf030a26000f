-- ===== src/Gateway/Bindings.antt =====
-- internal/gateway/bindings: the scope and the session key of an inbound event.
pub mod Scope
pub mod Key
pub mod Resolver
