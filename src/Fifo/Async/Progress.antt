-- ===== src/Fifo/Async/Progress.antt =====
-- How many operations the queue of promises counts, and when a waiting fetch goes on
-- (src/classes/async-fifo-queue.ts).
use elephantmq.Base.{
  if◌then◌else◌, true, false, some, length, length-remove, length-append, ◌+◌, none, ap, [], ◌∷◌,
  ◌≡◌, elem, suc, Option, arith, ℕ, ◌∙◌, inl, sym, ◌++◌, inr, eq-nil_of_length, Bool-cases, ◌==◌,
  refl,
}
use elephantmq.Fifo.Contract.{FifoList}
use elephantmq.Fifo.Async.{
  AsyncFifoQueue, on_resolved, fetch_round, is_ready, num_total, on_rejected, waits, fetched, add,
}
use elephantmq.Fifo.Async.Order.{round_empty, round_full}

module _ {A : Type 0} (F : FifoList (Option A)) where
  size-push : (l : F.Carrier) (a : Option A) → F.IsGood l → F.size (F.push l a) ≡ F.size l + 1
  size-push l a g =
      F.size_length _ (F.push_good l a g)
      ∙ ap length (F.to_list_push l a g)
      ∙ omega (arith, length-append (F.to_list l) (a ∷ []), F.size_length l g)

  -- A promise that is pending and resolves is counted as before, as is one that rejects where errors
  -- are ignored; where they are not, one operation less is counted.
  pub num_total-settled :
      (p : ℕ) (a : A) (q : AsyncFifoQueue F)
      → F.IsGood q.queue
      → elem p q.pending ≡ true
      → (num_total F (on_resolved F p a q) ≡ num_total F q)
        × (num_total F (on_rejected F p q) + (if q.ignore_errors then 0 else 1) ≡ num_total F q)
  unfolding on_resolved on_rejected
  num_total-settled p a q g h =
      let gone = length-remove p q.pending h in
      let grown = size-push q.queue (some a) g in
      let grown_none = size-push q.queue none g in ground arith

  round-waits :
      (q : AsyncFifoQueue F) (n : ℕ)
      → (fetch_round F q).1 ≡ waits n
      → (F.size q.queue ≡ 0) × (n ≡ q.next_promise)
  unfolding fetch_round
  round-waits q n w = ground arith

  -- The only value of a list that was empty is the one shifted.
  shift-push :
      (l : F.Carrier) (a : Option A) → F.IsGood l → F.size l ≡ 0 → (F.shift (F.push l a)).0 ≡ some a
  shift-push l a g z =
      let none_left = eq-nil_of_length _ (sym (F.size_length l g) ∙ z) in
      let one = F.to_list_push l a g ∙ ap (λ v. v ++ a ∷ []) none_left in
      elim (F.shift_to_list (F.push l a) (F.push_good l a g)) [
        | inl (empty, _, _) ↦ cc
        | inr (b, e, m) ↦ ground arith
      ]

  -- A fetch that waits on an empty queue is woken by the next promise to resolve, whichever it is,
  -- and its next round hands out that promise's value.
  pub fetch_round-woken :
      (p n : ℕ) (a : A) (q : AsyncFifoQueue F)
      → F.IsGood q.queue
      → (fetch_round F q).1 ≡ waits n
      → (is_ready F n (on_resolved F p a q) ≡ true)
        × ((fetch_round F (on_resolved F p a q)).1 ≡ fetched (some a))
  unfolding on_resolved
  fetch_round-woken p n a q g w =
      let (z, e) = round-waits q n w in
      (
        ground arith,
        ap (λ r. r.1)
            (round_full F (on_resolved F p a q) (some a)
              (ground (arith, size-push q.queue (some a) g)) (shift-push q.queue (some a) g z)),
      )

  -- A fetch that waits for the last pending promise, in a queue that does not ignore errors, waits on
  -- when that promise rejects: nothing is pending any more that could wake it.
  pub fetch_round-stuck :
      (p n : ℕ) (q : AsyncFifoQueue F)
      → q.ignore_errors ≡ false
      → q.pending ≡ p ∷ []
      → (fetch_round F q).1 ≡ waits n
      → ((fetch_round F (on_rejected F p q)).1 ≡ waits (suc n))
        × (num_total F (on_rejected F p q) ≡ 0)
  unfolding on_rejected
  fetch_round-stuck p n q strict last w =
      let (z, e) = round-waits q n w in
      let kept : (on_rejected F p q).queue ≡ q.queue = rw strict in
      (
        ap (λ r. r.1) (round_empty F (on_rejected F p q) (ground arith))
            ∙ ap (λ k. waits (suc k)) (sym e),
        ground arith,
      )

  -- A fetch that hands out a value that was queued leaves one operation less, and a good list.
  pub fetch_round-fetched :
      (q : AsyncFifoQueue F) (a : Option A)
      → F.IsGood q.queue
      → (fetch_round F q).1 ≡ fetched a
      → F.IsGood (fetch_round F q).0.queue
        × (num_total F (fetch_round F q).0 + 1 ≡ num_total F q)
        × ((fetch_round F q).0.ignore_errors ≡ q.ignore_errors)
  fetch_round-fetched q a g f = elim (Bool-cases (F.size q.queue == 0)) [
    | inl z ↦ absurd (ground (arith, ap (λ r. r.1) (round_empty F q z)))
    | inr more ↦ elim (F.shift_to_list q.queue g) [
      | inl (empty, none_left, rest) ↦ absurd (ground (arith, F.size_length _ g, ap length empty))
      | inr (b, e, l) ↦ rw (round_full F q b more e) (
        F.shift_good _ g,
        omega (arith, F.size_length _ g, F.size_length _ (F.shift_good _ g), ap length l),
        refl,
      )
    ]
  ]

  pub num_total-add : (p : ℕ) (q : AsyncFifoQueue F) → num_total F (add F p q) ≡ num_total F q + 1
  unfolding add
  num_total-add p q = omega (arith, length-append q.pending (p ∷ []))
