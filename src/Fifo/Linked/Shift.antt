-- ===== src/Fifo/Linked/Shift.antt =====
-- `shift` of the class LinkedList of src/classes/async-fifo-queue.ts, and its size.
use native.Mathlib.Numerals.{sub-one}
use elephantmq.Base.{
  none, ap, zero, some, inr, suc, ◌==◌, ◌∷◌, length, ◌⊎◌, inl, arith, refl, Option, ℕ, false, [],
  ◌≡◌,
}
use elephantmq.Fifo.Linked.{
  Node, Chain-rest, walk_step, Chain, to_list, walk_none, LinkedList, IsGood, Chain-head, shift,
  walk,
}

module _ {A : Type 0} where
  abbrev made : (ℕ → Option (Node A)) → ℕ → ℕ → Option ℕ → Option ℕ → LinkedList A
  made cell fresh n head tail = record {
    cell = cell;
    fresh = fresh;
    size = n;
    head = head;
    tail = tail;
  }

  abbrev pub Shifts : LinkedList A → Type 0
  Shifts l =
      IsGood (shift l).1
      × (((to_list l ≡ []) × ((shift l).0 ≡ none) × (to_list (shift l).1 ≡ []))
          ⊎ ((a : A) × ((shift l).0 ≡ some a) × (to_list l ≡ a ∷ to_list (shift l).1)))

  shift_lem :
      (cell : ℕ → Option (Node A)) (fresh n : ℕ) (head tail : Option ℕ)
      → Chain cell fresh n head tail
      → Shifts (made cell fresh n head tail)
  unfolding shift to_list
  shift_lem cell fresh zero head tail c = (tt, inl (walk_none cell head, refl, walk_none cell head))
  shift_lem cell fresh (suc n) head tail c =
      let (q, node, hp, hc) = Chain-head cell fresh n head tail c in
      let more : (suc n == 0) ≡ false = ground arith in
      rw (more, hp, hc, sub-one (suc n))
        (Chain-rest cell fresh n q node tail hc (rw hp at c), inr (node.value, refl, refl))

  -- A shift of a well-formed list keeps it well formed; it gives nothing on the empty list, and otherwise takes the
  -- oldest value off.
  pub shift-Shifts : (l : LinkedList A) → IsGood l → Shifts l
  shift-Shifts l g = shift_lem l.cell l.fresh l.size l.head l.tail g

  pub size-length :
      (cell : ℕ → Option (Node A)) (fresh n : ℕ) (p t : Option ℕ)
      → Chain cell fresh n p t
      → length (walk cell n p) ≡ n
  size-length cell fresh zero p t c = ap length (walk_none cell p)
  size-length cell fresh (suc n) p t c =
      let (q, node, hp, hc) = Chain-head cell fresh n p t c in
      rw (hp, walk_step cell n q node hc)
        (ap suc
          (size-length cell fresh n node.next t (Chain-rest cell fresh n q node t hc (rw hp at c))))
