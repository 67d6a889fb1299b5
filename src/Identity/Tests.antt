-- ===== src/Identity/Tests.antt =====
-- Runs of src/classes/queue-identity.ts.
use elephantmq.Base.{length, suc, ◌<◌, some, refl, zero, ℕ, arith, ◌++◌, [], ◌≡◌, ◌∷◌, ◌≢◌, ◌≤◌}
use elephantmq.Identity.{
  is_retryable_pg_conflict, Query, escape_schema, row_id, ensure_queue_row, quote, refused,
  inserted,
}
use elephantmq.Identity.Quoting.{read_identifier-escape_schema, read_identifier}
use elephantmq.Keys.{Text, codes}
use elephantmq.Identity.Attempts.{Conflicts, ensure_queue_row-row_id}
use elephantmq.Enqueue.{length_in_utf8_bytes}

-- A name with a quote in it.
abbrev odd_name : Text
odd_name = b'a' ∷ quote ∷ b';' ∷ []

odd_name-filled : odd_name ≢ []
odd_name-filled e = ground (arith, e)

odd_name-short : length_in_utf8_bytes odd_name ≤ 63
unfolding length_in_utf8_bytes
odd_name-short = omega arith

read_identifier-escape_schema_example :
    read_identifier (escape_schema odd_name ++ codes ".emq_jobs")
    ≡ some (odd_name, codes ".emq_jobs")
read_identifier-escape_schema_example =
    read_identifier-escape_schema odd_name (codes ".emq_jobs") odd_name-filled odd_name-short refl

-- A deadlock, and then a row.
abbrev deadlock_once : ℕ → Query
deadlock_once zero = refused "40P01"
deadlock_once (suc n) = inserted 7

deadlock_Conflicts : (i : ℕ) → i < 1 → Conflicts deadlock_once (deadlock_once i)
unfolding is_retryable_pg_conflict
deadlock_Conflicts zero h = refl
deadlock_Conflicts (suc i) h = absurd (omega arith)

ensure_queue_row-row_id_example :
    ((ensure_queue_row deadlock_once).1 ≡ row_id 7)
    × (length (ensure_queue_row deadlock_once).0 ≡ 1)
ensure_queue_row-row_id_example =
    ensure_queue_row-row_id deadlock_once 1 7 (omega arith) deadlock_Conflicts refl
