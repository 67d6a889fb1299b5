-- ===== src/Worker/Loop.antt =====
-- `mainLoop` of src/classes/worker.ts over the queue of promises: a step relation, in which promises
-- settle, and the worker is paused, closed, limited or made to wait, and its concurrency is set, at any
-- time. A concurrency is a whole number.
use mathlib.Core.Option.{some-injective}
use elephantmq.Base.{
  ◌≡◌, ◌&&◌, Option, ◌≤◌, leb, elem, ℕ, ◌+◌, arith, Bool, ◌||◌, ltb, not, some, false, true, ◌∙◌,
  none, refl, ap, length, if◌then◌else◌, max, ◌⊎◌, ◌<◌, Bool-cases, inl, inr, sym,
}
use elephantmq.Fifo.Async.{
  num_total, fetch_round, on_resolved, on_rejected, AsyncFifoQueue, constructed, add, fetched,
}
use elephantmq.Fifo.Contract.{FifoList}
use elephantmq.Fifo.Async.Order.{Action, Action-Fair}
use elephantmq.Fifo.Async.Progress.{num_total-settled, fetch_round-fetched, num_total-add}

module _ {J : Type 0} (F : FifoList (Option (Option J))) where
  -- A promise of the loop resolves to a job or to undefined.
  pub record Loop : Type 0 where
    pub queue : AsyncFifoQueue F
    pub token_postfix : ℕ
    pub closing : Bool
    pub paused : Bool
    pub waiting : Bool
    pub rate_limited : Bool
    pub concurrency : ℕ

  abbrev pub started : ℕ → Loop
  started concurrency = record {
    queue = constructed F false;
    token_postfix = 0;
    closing = false;
    paused = false;
    waiting = false;
    rate_limited = false;
    concurrency = concurrency;
  }

  -- `set concurrency`, which throws below 1: none.
  unfoldable pub set_concurrency : ℕ → Loop → Option Loop
  set_concurrency concurrency s =
      if ltb concurrency 1 then none else some (record s { concurrency = concurrency })

  -- The condition of the outer loop, and that of the inner one.
  unfoldable pub goes_on : Loop → Bool
  goes_on s = (not s.closing && not s.paused) || ltb 0 (num_total F s.queue)

  unfoldable pub can_fetch : Loop → Bool
  can_fetch s =
      not s.closing
      && not s.paused
      && not s.waiting
      && ltb (num_total F s.queue) s.concurrency
      && not s.rate_limited

  -- `() => asyncFifoQueue.numTotal() <= this._concurrency`
  unfoldable pub fetch_next_callback : Loop → Bool
  fetch_next_callback s = leb (num_total F s.queue) s.concurrency

  pub data Step : Loop → Loop → Type 0 where
    -- The inner loop adds the promise of a fetched job, under the next token.
    fetches :
        (s : Loop) (p : ℕ)
        → can_fetch s ≡ true
        → Step s (record s { queue = add F p s.queue; token_postfix = s.token_postfix + 1 })
    resolves :
        (s : Loop) (p : ℕ) (job : Option J)
        → elem p s.queue.pending ≡ true
        → Step s (record s { queue = on_resolved F p job s.queue })
    rejects :
        (s : Loop) (p : ℕ)
        → elem p s.queue.pending ≡ true
        → Step s (record s { queue = on_rejected F p s.queue })
    -- A job that is taken is processed under a new promise, whether or not the worker goes on.
    processes :
        (s : Loop) (p : ℕ) (job : J)
        → (fetch_round F s.queue).1 ≡ fetched (some (some job))
        → Step s (record s { queue = add F p (fetch_round F s.queue).0 })
    takes_nothing :
        (s : Loop) (a : Option (Option J))
        → (fetch_round F s.queue).1 ≡ fetched a
        → Step s (record s { queue = (fetch_round F s.queue).0 })
    turns :
        (s : Loop) (closing paused waiting rate_limited : Bool)
        → Step s (record s {
          closing = closing;
          paused = paused;
          waiting = waiting;
          rate_limited = rate_limited;
        })
    sets_concurrency :
        (s t : Loop) (concurrency : ℕ) → set_concurrency concurrency s ≡ some t → Step s t

  -- The states that the loop reaches, with the highest concurrency that was set on the way.
  pub data Reach : ℕ → Loop → Type 0 where
    begins : (concurrency : ℕ) → Reach concurrency (started concurrency)
    then_step :
        {highest : ℕ} {s t : Loop}
        → Reach highest s
        → Step s t
        → Reach (max highest t.concurrency) t

  -- The list is well formed, and no more operations are counted than the highest concurrency allows.
  abbrev IsBounded : ℕ → Loop → Type 0
  IsBounded highest s =
      F.IsGood s.queue.queue
      × (num_total F s.queue ≤ highest)
      × (s.queue.ignore_errors ≡ false)
      × (s.concurrency ≤ highest)

  set_concurrency-queue : (s t : Loop) (m : ℕ) → set_concurrency m s ≡ some t → t.queue ≡ s.queue
  unfolding set_concurrency
  set_concurrency-queue s t m e = elim (Bool-cases (ltb m 1)) [
    | inl low ↦ absurd (ground (arith, e, low))
    | inr fine ↦
        let set : some (record s { concurrency = m }) ≡ some t =
          sym (ap (λ b. if b then none else some (record s { concurrency = m })) fine) ∙ e in
        ap (λ l. l.queue) (sym (some-injective _ _ set))
  ]

  lt-or-ge : (a b : ℕ) → (a < b) ⊎ (b ≤ a)
  lt-or-ge a b = ground arith

  Step-IsBounded :
      {highest : ℕ} {s t : Loop}
      → Step s t
      → IsBounded highest s
      → IsBounded (max highest t.concurrency) t
  unfolding can_fetch set_concurrency
  Step-IsBounded (fetches s p c) (g, n, i, k) =
      let (g', _, i') = Action-Fair F (Action.adds p) s.queue g in
      (g', ground (arith, num_total-add F p s.queue), i' ∙ i, omega (arith, k))
  Step-IsBounded (resolves s p job e) (g, n, i, k) =
      let (g', _, i') = Action-Fair F (Action.resolves p job) s.queue g in
      (g', omega (arith, (num_total-settled F p job s.queue g e).0, n), i' ∙ i, omega (arith, k))
  Step-IsBounded (rejects s p e) (g, n, i, k) =
      let (g', _, i') = Action-Fair F (Action.rejects p) s.queue g in
      (g', omega (arith, (num_total-settled F p none s.queue g e).1, n), i' ∙ i, omega (arith, k))
  Step-IsBounded (processes s p job r) (g, n, i, k) =
      let (taken_good, less, taken) = fetch_round-fetched F s.queue (some (some job)) g r in
      let q = (fetch_round F s.queue).0 in
      let (g', _, i') = Action-Fair F (Action.adds p) q taken_good in
      (g', omega (arith, less, n, num_total-add F p q), i' ∙ taken ∙ i, omega (arith, k))
  Step-IsBounded (takes_nothing s a r) (g, n, i, k) =
      let (taken_good, less, taken) = fetch_round-fetched F s.queue a g r in
      (taken_good, omega (arith, less, n), taken ∙ i, omega (arith, k))
  Step-IsBounded (turns s c p w l) (g, n, i, k) = (g, omega (arith, n), i, omega (arith, k))
  Step-IsBounded {highest} (sets_concurrency s t m e) (g, n, i, k) =
      rw (set_concurrency-queue s t m e) (g, omega (arith, n), i, omega arith)

  Reach-IsBounded : {highest : ℕ} {s : Loop} → Reach highest s → IsBounded highest s
  Reach-IsBounded (begins concurrency) = (
    F.empty_good,
    omega (arith, F.size_length _ F.empty_good, ap length F.to_list_empty),
    refl,
    omega arith,
  )
  Reach-IsBounded (then_step r st) = Step-IsBounded st (Reach-IsBounded r)

  -- In every state that the loop reaches, the promises that are pending and the results that are
  -- queued are together at most as many as the highest concurrency that was ever set. Where the
  -- concurrency is no lower now than it ever was, the test of a job that ends holds, by which it asks for
  -- the next one.
  pub Reach-bounded :
      {highest : ℕ} {s : Loop}
      → Reach highest s
      → (num_total F s.queue ≤ highest)
        × ((s.concurrency < highest) ⊎ (fetch_next_callback s ≡ true))
  unfolding fetch_next_callback
  Reach-bounded {highest} {s} r =
      let (g, n, i, k) = Reach-IsBounded r in
      (
        n,
        elim (lt-or-ge s.concurrency highest) [
          | inl l ↦ inl l
          | inr h ↦ inr (ground (arith, n, h))
        ],
      )
