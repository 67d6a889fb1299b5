-- ===== src/Fifo/Linked/Push.antt =====
-- `push` of the class LinkedList of src/classes/async-fifo-queue.ts.
use native.Mathlib.Numerals.{add-one}
use elephantmq.Base.{
  ◌==◌, Option, zero, ◌∷◌, false, [], ap, ◌++◌, none, some, sym, ℕ, ◌≢◌, arith, suc, ◌∙◌, refl, ◌<◌,
  ◌≡◌,
}
use elephantmq.Fifo.Linked.{
  IsGood, append_to, Chain-tail, Node, walk_none, to_list, LinkedList, walk_step, Chain, walk,
  write, push,
}

module _ {A : Type 0} where
  -- A cell written behind the last node of a chain makes it longer by one.
  module _ (cell cell' : ℕ → Option (Node A)) (fresh t : ℕ) (a : A)
      (same : (k : ℕ) → k < fresh → k ≢ t → cell' k ≡ cell k)
      (linked : (node : Node A)
        → cell t ≡ some node
        → cell' t ≡ some (record node { next = some fresh }))
      (new : cell' fresh ≡ some (record { value = a; next = none })) where
    grown-Chain :
        (n : ℕ) (p : Option ℕ)
        → Chain cell fresh (suc n) p (some t)
        → Chain cell' (suc fresh) (suc (suc n)) p (some fresh)
    grown-Chain zero p (q, node, hp, ht, hc, hq) = (
      q,
      record node { next = some fresh },
      hp,
      (λ e. absurd (ground arith)),
      (let at_t : cell t ≡ some node = ground arith in
          let written = linked node at_t in ground arith),
      omega arith,
      (fresh, record { value = a; next = none }, refl, refl, new, omega arith),
    )
    grown-Chain (suc n) p (q, node, hp, ht, hc, hq, rest) = (
      q,
      node,
      hp,
      (λ e. absurd (ground arith)),
      same q hq (λ e. ht (ap some (sym e))) ∙ hc,
      omega arith,
      grown-Chain n node.next rest,
    )

    walk-grown :
        (n : ℕ) (p : Option ℕ)
        → Chain cell fresh (suc n) p (some t)
        → walk cell' (suc (suc n)) p ≡ walk cell (suc n) p ++ a ∷ []
    walk-grown zero p (q, node, hp, ht, hc, hq) =
        let at_t : cell t ≡ some node = ground arith in
        let written = linked node at_t in
        let at_q : cell' q ≡ some (record node { next = some fresh }) = ground arith in
        rw (
          hp,
          walk_step cell 0 q node hc,
          walk_step cell' 1 q (record node { next = some fresh }) at_q,
          walk_step cell' 0 fresh (record { value = a; next = none }) new,
          walk_none cell node.next,
          walk_none cell' none,
        )
    walk-grown (suc n) p (q, node, hp, ht, hc, hq, rest) =
        rw
          (
            hp,
            walk_step cell (suc n) q node hc,
            walk_step cell' (suc (suc n)) q node (same q hq (λ e. ht (ap some (sym e))) ∙ hc),
          )
          (ap (◌∷◌ node.value) (walk-grown n node.next rest))

  module _ (cell : ℕ → Option (Node A)) (fresh : ℕ) (a : A) where
    abbrev allocate : ℕ → Option (Node A)
    allocate = write cell fresh (record { value = a; next = none })

    -- After the allocation and the write to the old tail.
    abbrev linked_to : ℕ → Node A → ℕ → Option (Node A)
    linked_to t node = write allocate t (record node { next = some fresh })

    module _ (t : ℕ) (node : Node A) (h : cell t ≡ some node) (below : t < fresh) where
      linked-same : (k : ℕ) → k < fresh → k ≢ t → linked_to t node k ≡ cell k
      linked-same k p ne = ground arith

      linked-next :
          (n : Node A)
          → cell t ≡ some n
          → linked_to t node t ≡ some (record n { next = some fresh })
      linked-next n e = ground arith

      linked-new : linked_to t node fresh ≡ some (record { value = a; next = none })
      linked-new = ground arith

      append_to-linked : append_to allocate (some t) fresh ≡ linked_to t node
      unfolding append_to
      append_to-linked = let e : allocate t ≡ some node = ground arith in rw (e, append_to)

    push_lem :
        (n : ℕ) (head tail : Option ℕ)
        → Chain cell fresh n head tail
        → let l =
            push (record { cell = cell; fresh = fresh; size = n; head = head; tail = tail }) a in
          IsGood l × (to_list l ≡ walk cell n head ++ a ∷ [])
    unfolding push to_list
    push_lem zero head tail c = (
      (fresh, record { value = a; next = none }, refl, refl, ground arith, omega arith),
      rw (walk_none cell head) (
          walk_step allocate 0 fresh (record { value = a; next = none }) (ground arith)
          ∙ ap (◌∷◌ a) (walk_none allocate none)),
    )
    push_lem (suc n) head tail c =
        let (t, node, e, h, below) = Chain-tail cell fresh n head tail c in
        let more : (suc n == 0) ≡ false = ground arith in
        rw (more, e, append_to-linked t node h below, add-one (suc n))
          (
            grown-Chain cell (linked_to t node) fresh t a (linked-same t node h below)
                (linked-next t node h below) (linked-new t node h below) n head (rw e at c),
            walk-grown cell (linked_to t node) fresh t a (linked-same t node h below)
                (linked-next t node h below) (linked-new t node h below) n head (rw e at c),
          )

  -- A push on a well-formed list keeps it well formed, and puts the value behind the others.
  pub push-IsGood :
      (l : LinkedList A) (a : A)
      → IsGood l
      → IsGood (push l a) × (to_list (push l a) ≡ to_list l ++ a ∷ [])
  unfolding to_list
  push-IsGood l a g = push_lem l.cell l.fresh a l.size l.head l.tail g
