-- ===== src/Runtime.antt =====
-- internal/runtime: the kernel, which takes an event through claim, execution and finalize.
pub mod Kernel
pub mod Payload
pub mod Adapter
pub mod EventLoop
pub mod Workers
mod Tests
