-- ===== src/Worker.antt =====
-- src/worker: the task queues, and the reactor that serves requests.
pub mod ArrayQueue
pub mod Listener
pub mod LockFree
pub mod Metrics
pub mod Queue
pub mod Start
pub mod Reactor
pub mod Thread
