-- ===== src/Fifo.antt =====
-- src/classes/async-fifo-queue.ts: the linked list on a heap of nodes, and the queue of promises
-- that stands on it.
pub mod Contract
pub mod Linked
pub mod Async
pub mod Tests
