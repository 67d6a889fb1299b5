-- ===== src/Fifo/Linked.antt =====
-- The class LinkedList of src/classes/async-fifo-queue.ts: nodes on a heap, with a head and a tail.
pub mod Push
pub mod Shift
pub mod Filled
use mathlib.Core.Option.{some-injective}
use elephantmq.Base.{
  ◌≡◌, some, ◌-◌, ◌+◌, ◌==◌, suc, if◌then◌else◌, [], ap, none, refl, Option, ◌∙◌, ◌≢◌, sym, List, ℕ,
  ◌∷◌, ◌<◌, zero,
}

pub record Node (A : Type 0) : Type 0 where
  pub value : A
  pub next : Option ℕ

-- `cell` is the heap, and `fresh` the address of the next node.
pub record LinkedList (A : Type 0) : Type 0 where
  pub cell : ℕ → Option (Node A)
  pub fresh : ℕ
  pub size : ℕ
  pub head : Option ℕ
  pub tail : Option ℕ

module _ {A : Type 0} where
  abbrev pub write : (ℕ → Option (Node A)) → ℕ → Node A → ℕ → Option (Node A)
  write cell p n k = if k == p then some n else cell k

  unfoldable pub empty : LinkedList A
  empty = record { cell = λ _. none; fresh = 0; size = 0; head = none; tail = none }

  -- `this.tail.next = newNode`
  pub append_to : (ℕ → Option (Node A)) → Option ℕ → ℕ → ℕ → Option (Node A)
  append_to cell none p = cell
  append_to cell (some t) p = elim (cell t) [
    | none ↦ cell
    | some n ↦ write cell t (record n { next = some p })
  ]

  pub push : LinkedList A → A → LinkedList A
  unfolding append_to
  push l a = record {
    cell = if l.size == 0 then allocated else append_to allocated l.tail l.fresh;
    fresh = suc l.fresh;
    size = l.size + 1;
    head = if l.size == 0 then some l.fresh else l.head;
    tail = some l.fresh;
  }
    where
      allocated : ℕ → Option (Node A)
      allocated = write l.cell l.fresh (record { value = a; next = none })

  -- The node that a pointer leads to.
  abbrev pub node_at : (ℕ → Option (Node A)) → Option ℕ → Option (Node A)
  node_at cell none = none
  node_at cell (some p) = cell p

  abbrev pub next_of : Option (Node A) → Option ℕ
  next_of none = none
  next_of (some n) = n.next

  abbrev pub value_of : Option (Node A) → Option A
  value_of none = none
  value_of (some n) = some n.value

  -- The tail is left as it is, also when the list becomes empty.
  pub shift : LinkedList A → Option A × LinkedList A
  shift l = if l.size == 0 then (none, l) else (
    value_of (node_at l.cell l.head),
    record l { head = next_of (node_at l.cell l.head); size = l.size - 1 },
  )

  -- The values of the first n nodes from a pointer on.
  pub walk : (ℕ → Option (Node A)) → ℕ → Option ℕ → List A
  walk cell zero p = []
  walk cell (suc n) none = []
  walk cell (suc n) (some p) = elim (cell p) [
    | none ↦ []
    | some node ↦ node.value ∷ walk cell n node.next
  ]

  pub to_list : LinkedList A → List A
  unfolding walk
  to_list l = walk l.cell l.size l.head

  pub walk_step :
      (cell : ℕ → Option (Node A)) (n p : ℕ) (node : Node A)
      → cell p ≡ some node
      → walk cell (suc n) (some p) ≡ node.value ∷ walk cell n node.next
  unfolding walk
  walk_step cell n p node h = rw (h, walk)

  pub walk_none : (cell : ℕ → Option (Node A)) (p : Option ℕ) → walk cell 0 p ≡ []
  unfolding walk
  walk_none cell p = refl

  -- From p there are n nodes below `fresh`, of which the last, and no other, is t.
  abbrev pub Chain : (ℕ → Option (Node A)) → ℕ → ℕ → Option ℕ → Option ℕ → Type 0
  Chain cell fresh zero p t = Unit {0}
  Chain cell fresh (suc zero) p t =
      (q : ℕ) × (node : Node A) × (p ≡ some q) × (t ≡ some q) × (cell q ≡ some node) × (q < fresh)
  Chain cell fresh (suc (suc n)) p t =
      (q : ℕ) × (node : Node A) × (p ≡ some q)
      × (t ≢ some q)
      × (cell q ≡ some node)
      × (q < fresh)
      × Chain cell fresh (suc n) node.next t

  abbrev pub IsGood : LinkedList A → Type 0
  IsGood l = Chain l.cell l.fresh l.size l.head l.tail

  -- The last node of a chain is on the heap.
  pub Chain-tail :
      (cell : ℕ → Option (Node A)) (fresh n : ℕ) (p t : Option ℕ)
      → Chain cell fresh (suc n) p t
      → (q : ℕ) × (node : Node A) × (t ≡ some q) × (cell q ≡ some node) × (q < fresh)
  Chain-tail cell fresh zero p t (q, node, hp, ht, hc, hq) = (q, node, ht, hc, hq)
  Chain-tail cell fresh (suc n) p t (q, node, hp, ht, hc, hq, rest) =
      Chain-tail cell fresh n node.next t rest

  -- What is left of a chain behind its first node.
  pub Chain-rest :
      (cell : ℕ → Option (Node A)) (fresh n q : ℕ) (node : Node A) (tail : Option ℕ)
      → cell q ≡ some node
      → Chain cell fresh (suc n) (some q) tail
      → Chain cell fresh n node.next tail
  Chain-rest cell fresh zero q node tail h c = tt
  Chain-rest cell fresh (suc n) q node tail h (q', node', hp, ht, hc, hq, rest) =
      let e : node' ≡ node =
        some-injective _ _ (sym hc ∙ ap cell (some-injective _ _ (sym hp)) ∙ h) in
      rw e at rest

  pub Chain-head :
      (cell : ℕ → Option (Node A)) (fresh n : ℕ) (p t : Option ℕ)
      → Chain cell fresh (suc n) p t
      → (q : ℕ) × (node : Node A) × (p ≡ some q) × (cell q ≡ some node)
  Chain-head cell fresh zero p t (q, node, hp, ht, hc, hq) = (q, node, hp, hc)
  Chain-head cell fresh (suc n) p t (q, node, hp, ht, hc, hq, rest) = (q, node, hp, hc)
