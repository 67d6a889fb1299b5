-- ===== src/Identity/Attempts.antt =====
-- The attempts to insert the row of a queue (src/classes/queue-identity.ts, ensureQueueRow).
use elephantmq.Base.{
  ◌+◌, zero, ◌*◌, true, ◌<◌, length, String, suc, ℕ, arith, ◌≡◌, refl, ◌∙◌, subst, ap,
}
use elephantmq.Identity.{
  try_insert, row_id, is_retryable_pg_conflict, ensure_queue_row, Query, inserted, slept_before,
  refused,
}

module _ (query : ℕ → Query) where
  -- An attempt that meets a deadlock or a serialization failure.
  abbrev pub Conflicts : Query → Type 0
  Conflicts (inserted id) = ⊥
  Conflicts (refused code) = is_retryable_pg_conflict code ≡ true

  try_insert-conflict :
      (left attempt : ℕ) (last : String) (q : Query)
      → query attempt ≡ q
      → Conflicts q
      → (code : String) × (try_insert query (suc left) attempt last
          ≡ slept_before (15 + attempt * 25) (try_insert query left (attempt + 1) code))
  unfolding try_insert
  try_insert-conflict left attempt last (inserted id) e c = absurd c
  try_insert-conflict left attempt last (refused code) e c = (code, rw (e, c, try_insert))

  try_insert-row_id :
      (k left attempt id : ℕ) (last : String)
      → k < left
      → ((i : ℕ) → i < k → Conflicts (query (attempt + i)))
      → query (attempt + k) ≡ inserted id
      → ((try_insert query left attempt last).1 ≡ row_id id)
        × (length (try_insert query left attempt last).0 ≡ k)
  unfolding try_insert
  try_insert-row_id k zero attempt id last lt down up = absurd (omega arith)
  try_insert-row_id zero (suc left) attempt id last lt down up =
      let e : query attempt ≡ inserted id = ap query (omega arith) ∙ up in
      rw (e, try_insert) (refl, refl)
  try_insert-row_id (suc k) (suc left) attempt id last lt down up =
      let first : Conflicts (query attempt) =
        subst (λ n. Conflicts (query n)) (omega arith) (down 0 (omega arith)) in
      let (code, step) = try_insert-conflict left attempt last (query attempt) refl first in
      let (ends, many) =
        try_insert-row_id k left (attempt + 1) id code (omega arith)
          (λ i l. subst (λ n. Conflicts (query n)) (omega arith) (down (suc i) (omega arith)))
          (ap query (omega arith) ∙ up) in
      (ap (λ r. r.1) step ∙ ends, ap (λ r. length r.0) step ∙ ap suc many)

  -- Where the first k attempts, fewer than five, meet a conflict and the next one inserts the row, its
  -- id is returned after k sleeps.
  pub ensure_queue_row-row_id :
      (k id : ℕ)
      → k < 5
      → ((i : ℕ) → i < k → Conflicts (query i))
      → query k ≡ inserted id
      → ((ensure_queue_row query).1 ≡ row_id id) × (length (ensure_queue_row query).0 ≡ k)
  unfolding ensure_queue_row
  ensure_queue_row-row_id k id lt down up =
      try_insert-row_id k 5 0 id "" lt
        (λ i l. subst (λ n. Conflicts (query n)) (omega arith) (down i l))
        (ap query (omega arith) ∙ up)
