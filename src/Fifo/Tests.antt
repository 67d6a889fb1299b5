-- ===== src/Fifo/Tests.antt =====
-- Runs of the class LinkedList of src/classes/async-fifo-queue.ts.
use elephantmq.Base.{ℕ, ◌≡◌, ◌++◌, ◌∷◌, [], some, Option, List, refl, true, false}
use elephantmq.Fifo.Linked.{LinkedList, IsGood, push, to_list, empty}
use elephantmq.Fifo.Linked.Push.{push-IsGood}
use elephantmq.Fifo.Linked.Shift.{Shifts, shift-Shifts}
use elephantmq.Fifo.Linked.Filled.{empty-IsGood, linked_fifo}
use elephantmq.Fifo.Async.{
  is_ready, on_resolved, num_total, fetch_round, on_rejected, AsyncFifoQueue, constructed, fetched,
  waits,
}
use elephantmq.Fifo.Async.Progress.{fetch_round-stuck, fetch_round-woken}
use elephantmq.Fifo.Contract.{FifoList}
use elephantmq.Fifo.Async.Order.{
  after_all, departures-arrivals, Action, adds, departures, resolves, values, rejects, arrivals,
  takes,
}

abbrev one : LinkedList ℕ
one = push empty 3

one-IsGood : IsGood one
one-IsGood = (push-IsGood empty 3 (empty-IsGood ℕ)).0

push-IsGood_example : IsGood (push one 4) × (to_list (push one 4) ≡ to_list one ++ 4 ∷ [])
push-IsGood_example = push-IsGood one 4 one-IsGood

shift-Shifts_example : Shifts one
shift-Shifts_example = shift-Shifts one one-IsGood

abbrev linked : FifoList (Option ℕ)
linked = linked_fifo (Option ℕ)

abbrev fresh_queue : AsyncFifoQueue linked
fresh_queue = constructed linked false

abbrev two_pending : AsyncFifoQueue linked
two_pending = record fresh_queue { pending = 1 ∷ 2 ∷ [] }

abbrev one_pending : AsyncFifoQueue linked
one_pending = record fresh_queue { pending = 1 ∷ [] }

abbrev acts : List (Action ℕ)
acts = adds 1 ∷ adds 2 ∷ resolves 2 70 ∷ rejects 1 ∷ takes ∷ []

departures-arrivals_example :
    departures linked acts fresh_queue ++ values linked (after_all linked acts fresh_queue)
    ≡ values linked fresh_queue ++ arrivals linked false acts
departures-arrivals_example = departures-arrivals linked acts fresh_queue linked.empty_good

fetch_round-woken_example :
    (is_ready linked 1 (on_resolved linked 2 70 two_pending) ≡ true)
    × ((fetch_round linked (on_resolved linked 2 70 two_pending)).1 ≡ fetched (some 70))
unfolding fetch_round linked_fifo empty
fetch_round-woken_example = fetch_round-woken linked 2 1 70 two_pending linked.empty_good refl

fetch_round-stuck_example :
    ((fetch_round linked (on_rejected linked 1 one_pending)).1 ≡ waits 2)
    × (num_total linked (on_rejected linked 1 one_pending) ≡ 0)
unfolding fetch_round linked_fifo empty
fetch_round-stuck_example = fetch_round-stuck linked 1 1 one_pending refl refl refl
