-- ===== src/Fifo/Async.antt =====
-- The class AsyncFifoQueue of src/classes/async-fifo-queue.ts, over any list that fills the
-- contract. A promise is its number; what is queued is a value, or none for undefined. A callback
-- of a promise that settles runs as one step, and so does each round of a waiting fetch.
pub mod Order
pub mod Progress
use elephantmq.Base.{
  ℕ, Bool, List, Option, if◌then◌else◌, ◌++◌, some, suc, [], ◌∷◌, ◌+◌, ◌&&◌, ◌==◌, length, remove,
  none, not,
}
use elephantmq.Fifo.Contract.{FifoList}

module _ {A : Type 0} (F : FifoList (Option A)) where
  open F use {Carrier, empty, push, shift, size}

  -- `next_promise` numbers the promises made by `newPromise`, of which the last is the current one.
  pub record AsyncFifoQueue : Type 0 where
    pub queue : Carrier
    pub pending : List ℕ
    pub next_promise : ℕ
    pub ignore_errors : Bool

  abbrev pub constructed : Bool → AsyncFifoQueue
  constructed ignore = record {
    queue = empty;
    pending = [];
    next_promise = 1;
    ignore_errors = ignore;
  }

  abbrev pub num_pending : AsyncFifoQueue → ℕ
  num_pending q = length q.pending

  abbrev pub num_queued : AsyncFifoQueue → ℕ
  num_queued q = size q.queue

  abbrev pub num_total : AsyncFifoQueue → ℕ
  num_total q = length q.pending + size q.queue

  -- Settles the current promise, and makes the next one.
  abbrev pub renewed : AsyncFifoQueue → AsyncFifoQueue
  renewed q = record q { next_promise = suc q.next_promise }

  unfoldable pub add : ℕ → AsyncFifoQueue → AsyncFifoQueue
  add p q = record q { pending = q.pending ++ p ∷ [] }

  -- The callback of `then`: the current promise is settled only where nothing was queued.
  unfoldable pub on_resolved : ℕ → A → AsyncFifoQueue → AsyncFifoQueue
  on_resolved p a q = record q {
    pending = remove p q.pending;
    queue = push q.queue (some a);
    next_promise = if size q.queue == 0 then suc q.next_promise else q.next_promise;
  }

  -- The callback of `catch`.
  unfoldable pub on_rejected : ℕ → AsyncFifoQueue → AsyncFifoQueue
  on_rejected p q = record q {
    pending = remove p q.pending;
    queue = if q.ignore_errors then push q.queue none else q.queue;
    next_promise = suc q.next_promise;
  }

  -- Where a fetch stands: it has its result, or it waits for a promise of `newPromise`.
  pub data Fetch : Type 0 where
    fetched : Option A → Fetch
    waits : ℕ → Fetch

  abbrev joined : Option (Option A) → Option A
  joined none = none
  joined (some a) = a

  -- One round of the loop of `fetch`.
  unfoldable pub fetch_round : AsyncFifoQueue → AsyncFifoQueue × Fetch
  fetch_round q =
      if size q.queue == 0
      then (q, waits q.next_promise)
      else (record q { queue = (shift q.queue).1 }, fetched (joined (shift q.queue).0))

  unfoldable pub fetch : AsyncFifoQueue → AsyncFifoQueue × Fetch
  unfolding fetch_round
  fetch q = if num_pending q == 0 && num_queued q == 0 then (q, fetched none) else fetch_round q

  -- A waiting fetch runs on as soon as its promise is no longer the current one.
  abbrev pub is_ready : ℕ → AsyncFifoQueue → Bool
  is_ready promise q = not (promise == q.next_promise)
