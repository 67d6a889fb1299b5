-- ===== src/Fifo/Linked/Filled.antt =====
-- The class LinkedList of src/classes/async-fifo-queue.ts fills the contract of a list.
use elephantmq.Base.{none, sym}
use elephantmq.Fifo.Contract.{FifoList}
use elephantmq.Fifo.Linked.Push.{push-IsGood}
use elephantmq.Fifo.Linked.Shift.{shift-Shifts, size-length}
use elephantmq.Fifo.Linked.{walk_none, LinkedList, IsGood, to_list, empty, push, shift}

pub empty-IsGood : (A : Type 0) → IsGood {A = A} empty
unfolding empty
empty-IsGood A = tt

-- The linked list fills the contract.
unfoldable pub linked_fifo : (A : Type 0) → FifoList A
unfolding to_list empty
linked_fifo A = record {
  Carrier = LinkedList A;
  IsGood = IsGood;
  to_list = to_list;
  empty = empty;
  push = push;
  shift = shift;
  size = λ l. l.size;
  empty_good = tt;
  push_good = λ l a g. (push-IsGood l a g).0;
  shift_good = λ l g. (shift-Shifts l g).0;
  to_list_empty = walk_none {A = A} (λ p. none) none;
  to_list_push = λ l a g. (push-IsGood l a g).1;
  shift_to_list = λ l g. (shift-Shifts l g).1;
  size_length = λ l g. sym (size-length l.cell l.fresh l.size l.head l.tail g);
}
