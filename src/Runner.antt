-- ===== src/Runner.antt =====
-- internal/runner: one run of an event.
pub mod Model
pub mod History
pub mod Policy
pub mod Display
pub mod Tools
pub mod Loop
pub mod Output
pub mod Run
mod Tests
