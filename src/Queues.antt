-- ===== src/Queues.antt =====
-- The task queues: libs/core/include/Queues and libs/jsRuntime's NestableQueue. A method that holds the
-- queue's lock for its whole body is one function on the state.
pub mod SafeQueue
pub mod Delayed
pub mod Nestable
mod Tests
