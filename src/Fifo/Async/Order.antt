-- ===== src/Fifo/Async/Order.antt =====
-- What the queue of promises hands out, and when (src/classes/async-fifo-queue.ts).
use elephantmq.Base.{
  Option, ◌∷◌, none, List, ◌++◌, Bool, [], sym, ◌≡◌, some, if◌then◌else◌, ℕ, refl, ap,
  eq-nil_of_length, inr, append_assoc, ◌==◌, ◌∙◌, Bool-cases, inl, append-nil, true, length, false,
  arith,
}
use elephantmq.Fifo.Contract.{FifoList}
use elephantmq.Fifo.Async.{
  AsyncFifoQueue, Fetch, on_rejected, fetch_round, on_resolved, add, fetched, waits,
}

-- What may happen to the queue: a promise is added or settles, or a fetch runs one round.
pub data Action (A : Type 0) : Type 0 where
  adds : ℕ → Action A
  resolves : ℕ → A → Action A
  rejects : ℕ → Action A
  takes : Action A

module _ {A : Type 0} (F : FifoList (Option A)) where
  abbrev pub after : Action A → AsyncFifoQueue F → AsyncFifoQueue F
  after (adds p) q = add F p q
  after (resolves p a) q = on_resolved F p a q
  after (rejects p) q = on_rejected F p q
  after takes q = (fetch_round F q).0

  -- The values that an action puts into the queue, and those that it hands out.
  abbrev pub arrives : Bool → Action A → List (Option A)
  arrives ignore (adds p) = []
  arrives ignore (resolves p a) = some a ∷ []
  arrives ignore (rejects p) = if ignore then none ∷ [] else []
  arrives ignore takes = []

  abbrev pub given : Fetch F → List (Option A)
  given (fetched a) = a ∷ []
  given (waits n) = []

  abbrev pub leaves : Action A → AsyncFifoQueue F → List (Option A)
  leaves (adds p) q = []
  leaves (resolves p a) q = []
  leaves (rejects p) q = []
  leaves takes q = given (fetch_round F q).1

  abbrev pub after_all : List (Action A) → AsyncFifoQueue F → AsyncFifoQueue F
  after_all [] q = q
  after_all (a ∷ acts) q = after_all acts (after a q)

  abbrev pub arrivals : Bool → List (Action A) → List (Option A)
  arrivals ignore [] = []
  arrivals ignore (a ∷ acts) = arrives ignore a ++ arrivals ignore acts

  abbrev pub departures : List (Action A) → AsyncFifoQueue F → List (Option A)
  departures [] q = []
  departures (a ∷ acts) q = leaves a q ++ departures acts (after a q)

  abbrev pub values : AsyncFifoQueue F → List (Option A)
  values q = F.to_list q.queue

  -- One action keeps the list good, and the values in order.
  abbrev pub Fair : Action A → AsyncFifoQueue F → Type 0
  Fair a q =
      F.IsGood (after a q).queue
      × (leaves a q ++ values (after a q) ≡ values q ++ arrives q.ignore_errors a)
      × ((after a q).ignore_errors ≡ q.ignore_errors)

  size-zero : (q : AsyncFifoQueue F) → F.IsGood q.queue → F.size q.queue ≡ 0 → values q ≡ []
  size-zero q g z = eq-nil_of_length _ (sym (F.size_length _ g) ∙ z)

  abbrev pub FairRound : AsyncFifoQueue F → AsyncFifoQueue F × Fetch F → Type 0
  FairRound q r =
      F.IsGood r.0.queue
      × (given r.1 ++ values r.0 ≡ values q ++ [])
      × (r.0.ignore_errors ≡ q.ignore_errors)

  pub round_empty :
      (q : AsyncFifoQueue F)
      → (F.size q.queue == 0) ≡ true
      → fetch_round F q ≡ (q, waits q.next_promise)
  unfolding fetch_round
  round_empty q z = rw z

  pub round_full :
      (q : AsyncFifoQueue F) (a : Option A)
      → (F.size q.queue == 0) ≡ false
      → (F.shift q.queue).0 ≡ some a
      → fetch_round F q ≡ (record q { queue = (F.shift q.queue).1 }, fetched a)
  unfolding fetch_round
  round_full q a more e = rw (more, e)

  pub round-Fair : (q : AsyncFifoQueue F) → F.IsGood q.queue → FairRound q (fetch_round F q)
  round-Fair q g = elim (Bool-cases (F.size q.queue == 0)) [
    | inl z ↦ rw (round_empty q z) (g, sym (append-nil _), refl)
    | inr more ↦ elim (F.shift_to_list q.queue g) [
      | inl (empty, none_left, rest) ↦ absurd (ground (arith, F.size_length _ g, ap length empty))
      | inr (a, e, l) ↦
          rw (round_full q a more e) (F.shift_good _ g, sym l ∙ sym (append-nil _), refl)
    ]
  ]

  pub Action-Fair : (a : Action A) (q : AsyncFifoQueue F) → F.IsGood q.queue → Fair a q
  unfolding add on_resolved on_rejected
  Action-Fair (adds p) q g = (g, sym (append-nil _), refl)
  Action-Fair (resolves p a) q g = (F.push_good _ _ g, F.to_list_push _ _ g, refl)
  Action-Fair (rejects p) q g = elim (Bool-cases q.ignore_errors) [
    | inl y ↦ rw y (F.push_good _ _ g, F.to_list_push _ _ g, refl)
    | inr n ↦ rw n (g, sym (append-nil _), refl)
  ]
  Action-Fair takes q g = round-Fair q g

  -- From a well-formed queue, whatever promises are added and settle and whenever fetches run, the
  -- values handed out, followed by those still queued, are the values that were queued before,
  -- followed by those of the promises in the order in which they settled.
  pub departures-arrivals :
      (acts : List (Action A)) (q : AsyncFifoQueue F)
      → F.IsGood q.queue
      → departures acts q ++ values (after_all acts q) ≡ values q ++ arrivals q.ignore_errors acts
  departures-arrivals [] q g = sym (append-nil _)
  departures-arrivals (a ∷ acts) q g =
      let (g', order, same) = Action-Fair a q g in
      let rest = departures-arrivals acts (after a q) g' in
      append_assoc (leaves a q) _ _
      ∙ ap (◌++◌ (leaves a q)) (rest ∙ ap (λ b. values (after a q) ++ arrivals b acts) same)
      ∙ sym (append_assoc (leaves a q) _ _)
      ∙ ap (λ l. l ++ arrivals q.ignore_errors acts) order
      ∙ append_assoc (values q) _ _
