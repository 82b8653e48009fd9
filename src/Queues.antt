-- ===== src/Queues.antt =====
-- src/ipe/runtime/queues.py: the bounded queues between the threads of the bridge. Each method
-- holds the queue's lock from start to end, so a method is one function on the queue's state.
pub mod Provisioning
pub mod Inbound
pub mod Outbound
