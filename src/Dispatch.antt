-- ===== src/Dispatch.antt =====
-- The runtime's small state holders around the queues: `Routes` is src/ipe/runtime/dispatcher.py,
-- `Lifecycle` is src/ipe/runtime/lifecycle.py, `Discovery` is src/ipe/runtime/discovery.py.
pub mod Routes
pub mod Lifecycle
pub mod Discovery
