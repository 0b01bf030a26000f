-- ===== src/Events.antt =====
-- internal/runtime/events/hub.go: the hub that fans a run's events out to its subscribers.
pub mod Subscription
pub mod Hub
pub mod Observer
mod Tests
