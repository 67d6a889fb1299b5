-- ===== src/Identity.antt =====
-- src/classes/queue-identity.ts: the schema's name as an SQL identifier, and the row of a queue. Texts
-- are lists of code points; the pool's query and its errors are a parameter.
pub mod Quoting
pub mod Attempts
pub mod Tests
use elephantmq.Base.{
  ℕ, Option, String, List, ◌∷◌, some, Bool, [], if◌then◌else◌, ◌++◌, str_eq, suc, none, ◌==◌, ◌||◌,
  false, ◌+◌, ◌*◌, zero, true,
}
use elephantmq.Keys.{Text, codes}

abbrev pub quote : ℕ
quote = b'"'

-- `schema.replace(/"/g, '""')`
unfoldable pub doubled_quotes : Text → Text
doubled_quotes [] = []
doubled_quotes (c ∷ cs) =
    let rest = doubled_quotes cs in if c == quote then quote ∷ quote ∷ rest else c ∷ rest

unfoldable pub escape_schema : Text → Text
unfolding doubled_quotes
escape_schema schema = quote ∷ (doubled_quotes schema ++ quote ∷ [])

abbrev or_next : Option Text → Text → Text
or_next none next = next
or_next (some []) next = next
or_next (some (c ∷ cs)) next = c ∷ cs

-- The schema of the options, or of a connection object, or else "public".
unfoldable pub resolve_schema : Option Text → Option Text → Text
resolve_schema schema of_connection = or_next schema (or_next of_connection (codes "public"))

-- What one query gives: the id of the row, or an error with its code.
pub data Query : Type 0 where
  inserted : ℕ → Query
  refused : String → Query

unfoldable pub is_retryable_pg_conflict : String → Bool
is_retryable_pg_conflict code = str_eq code "40P01" || str_eq code "40001"

-- How the loop ends, with the times slept on the way.
pub data Ensured : Type 0 where
  row_id : ℕ → Ensured
  thrown : String → Ensured

abbrev slept_before : ℕ → List ℕ × Ensured → List ℕ × Ensured
slept_before ms (sleeps, end) = (ms ∷ sleeps, end)

module _ (query : ℕ → Query) where
  -- The attempts left, from the one numbered `attempt` on, with the error of the last.
  unfoldable pub try_insert : ℕ → ℕ → String → List ℕ × Ensured
  unfolding is_retryable_pg_conflict
  try_insert zero attempt last = ([], thrown last)
  try_insert (suc left) attempt last = elim (query attempt) [
    | inserted id ↦ ([], row_id id)
    | refused code ↦ elim (is_retryable_pg_conflict code) [
      | false ↦ ([], thrown code)
      | true ↦ slept_before (15 + attempt * 25) (try_insert left (attempt + 1) code)
    ]
  ]

  unfoldable pub ensure_queue_row : List ℕ × Ensured
  unfolding try_insert
  ensure_queue_row = try_insert 5 0 ""
