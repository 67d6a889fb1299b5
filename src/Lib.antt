-- ===== src/Lib.antt =====
-- Verification of elephantmq, a job queue on PostgreSQL.
--
-- A worker takes a job through the scripts, which call SQL functions and turn their answers into
-- values and errors; a job that fails is tried again after a backoff; the lock manager renews the
-- locks of the jobs at hand, whose promises stand in a first-in first-out list; the job scheduler
-- computes when a repeated job is due. The files and the code they model:
--
-- Backoffs: src/classes/backoffs.ts (normalize, calculate, lookupStrategy).
-- Scripts: src/classes/scripts/base.ts (finishedErrors) and src/classes/scripts/lifecycle.ts, one
--   function per method, in Scripts/Errors, Scripts/Keep and Scripts/Lifecycle.
-- Job: src/classes/job.ts, the methods that change the state of a job at a worker. An operation
--   makes one call and reads its answer.
-- Fifo: src/classes/async-fifo-queue.ts: the class LinkedList on a heap of nodes (Fifo/Linked), and
--   AsyncFifoQueue over any list that keeps the contract (Fifo/Async).
-- Locks: src/classes/lock-manager.ts. Renewal is about the locks that are due, Timer about one firing.
-- Keys: src/classes/queue-keys.ts, mapListKeyToState of src/classes/scripts/helpers.ts and the check
--   of a name in src/classes/queue-base.ts.
-- Scheduler: the slot computed by upsertJobScheduler of src/classes/job-scheduler.ts.
-- Worker: src/classes/worker.ts with src/classes/worker: Delays and Wakeups (timeouts, notifications
--   and the wait for a job), Fetch, Process, Retry (retryIfFailed) and Loop (mainLoop, as a step
--   relation over the queue of promises, in which the concurrency may be set anew).
-- Deps: src/classes/emq-job-deps.ts (loadDependenciesFromPg and its pages).
-- Identity: src/classes/queue-identity.ts (escapeSchema, resolveSchema, ensureQueueRow).
-- Enqueue: src/classes/job/job-enqueue-validation.ts.
-- ChildPool: src/classes/child-pool.ts. Preserve and Exclusive are about the one place of a child,
--   Reuse about the free children.
-- Trimmer: src/classes/events-trimmer.ts.
-- Events: src/classes/queue-events.ts. Pending is about the rows not read yet, Delivery about what is
--   emitted while rows are added to the table and deleted from it.
-- Notify: src/classes/notification-manager.ts with its client. Heard is about calls one after the
--   other, Race about calls that overlap.
-- Flow: src/classes/flow-producer.ts: the calls that the nodes of a flow make, as an inductive family of
--   traces, and the transaction around them. Traces, Order, Atomic and Stores are about them.
-- Options: optsAsJSON and optsFromJSON of src/classes/job.ts with the tables of src/utils/index.ts.
--   Coded is about the tables, Encoded and Decoded about the two directions.
-- Rows: src/classes/emq-mappers.ts and fromJSON of src/classes/job.ts. Restored is the job that a row stands for, Worked about the flat fields that a worker gets.
-- Clean: clean of src/classes/queue.ts, with src/classes/scripts/maintenance.ts and the function
--   emq_clean_jobs_in_set_v1 of src/sql/functions/100_cleanJobsInSet-3.sql. Picked is about one
--   call of it, Ends about the loop.
-- Life: run, pause, resume and close of src/classes/worker.ts with worker/stalled-checker-loop.ts. Resumed
--   is about the main loop, Stalled about the stalled checker.
-- Getters: src/classes/queue-getters.ts, with src/classes/scripts/getters.ts and the function
--   emq_get_ranges_v1 of src/sql/functions/190_getRanges-1.sql. Whole is about reads of whole states.
-- Base: integers, Boolean tests and results for all of them.
--
-- The SQL functions but those named above, JSON and the texts of numbers, the constructor of Job, the
-- clock, Math.random, a custom backoff strategy and a repeat strategy are parameters. Times and numbers are unbounded; products that the source computes in doubles are
-- exact. Walks on the heap are bounded by the size of the list. retryIfFailed takes fuel: the
-- number of its tries, which the source does not bound unless maxRetries is set. So does the loop of
-- clean, for which the number of rows and one more is shown to be enough.
--
-- Not modelled: connections, processes and telemetry, which are input and output, and of the class
-- Queue all but clean.
pub mod Base
pub mod Backoffs
pub mod ChildPool
pub mod Scripts
pub mod Job
pub mod Fifo
pub mod Locks
pub mod Keys
pub mod Scheduler
pub mod Worker
pub mod Deps
pub mod Identity
pub mod Enqueue
pub mod Getters
pub mod Trimmer
pub mod Events
pub mod Notify
pub mod Flow
pub mod Options
pub mod Rows
pub mod Clean
pub mod Life
