-- ===== src/Clean.antt =====
-- The cleaning of a queue: `clean` of src/classes/queue.ts, cleanJobsInSet of
-- src/classes/scripts/maintenance.ts, and src/sql/functions/100_cleanJobsInSet-3.sql. What becomes of the
-- parents of deleted jobs is a parameter.
pub mod Picked
pub mod Ends
pub mod Tests
use elephantmq.Base.{
  ◌&&◌, ◌-◌, ◌||◌, max, if◌then◌else◌, String, str_eq, Bool, zero, ltb, min, none, ◌∷◌, List, not,
  ℕ, length, some, [], ◌++◌, leb, ◌==◌, suc, Option,
}

-- A row of emq_jobs. `scheduled` says that it is the next job of a scheduler, `since` is finished_on or
-- timestamp, as the state has it, in milliseconds.
pub record JobRow : Type 0 where
  pub job_id : String
  pub state : String
  pub scheduled : Bool
  pub since : ℕ

unfoldable pub is_picked : String → ℕ → JobRow → Bool
is_picked state before r = str_eq r.state state && (not r.scheduled && leb r.since before)

-- The first `n` rows that are picked, and the others.
unfoldable pub split_picked : String → ℕ → ℕ → List JobRow → List String × List JobRow
unfolding is_picked
split_picked state before zero rows = ([], rows)
split_picked state before (suc n) [] = ([], [])
split_picked state before (suc n) (r ∷ rows) =
    if is_picked state before r
    then (let rest = split_picked state before n rows in (r.job_id ∷ rest.0, rest.1))
    else (let rest = split_picked state before (suc n) rows in (rest.0, r ∷ rest.1))

unfoldable pub normalized : String → String
normalized type = if str_eq type "waiting" then "wait" else type

-- A limit of 0 is none.
unfoldable pub below : ℕ → ℕ → Bool
below count limit = limit == 0 || ltb count limit

unfoldable pub count_per_call : ℕ → ℕ
count_per_call limit = if limit == 0 then 10000 else min 10000 limit

-- `cascade` is emq_cascade_parent_cleanup_v1: the other rows after it, by the ids that were deleted.
module _ (cascade : List String → List JobRow → List JobRow) where
  unfoldable pub emq_clean_jobs_in_set_v1 : String → ℕ → ℕ → List JobRow → List String × List JobRow
  unfolding split_picked
  emq_clean_jobs_in_set_v1 state before limit rows =
      let (ids, rest) = split_picked state before (max limit 1) rows in
      if length ids == 0 then (ids, rows) else (ids, cascade ids rest)

  unfoldable pub clean_jobs_in_set : String → ℕ → ℕ → List JobRow → List String × List JobRow
  unfolding emq_clean_jobs_in_set_v1
  clean_jobs_in_set set timestamp limit rows =
      emq_clean_jobs_in_set_v1 set timestamp (if ltb 0 limit then limit else 10000) rows

  -- The loop of `clean`, behind the ids deleted so far. It is cut off where the fuel is spent.
  unfoldable pub clean_loop :
      ℕ → String → ℕ → ℕ → List String → List JobRow → Option (List String × List JobRow)
  unfolding clean_jobs_in_set below count_per_call
  clean_loop zero set timestamp limit deleted rows = none
  clean_loop (suc fuel) set timestamp limit deleted rows =
      let (ids, rest) = clean_jobs_in_set set timestamp (count_per_call limit) rows in
      let next = clean_loop fuel set timestamp limit (deleted ++ ids) rest in
      if not (below (length deleted) limit)
      then some (deleted, rows)
      else if ltb (length ids) (count_per_call limit)
      then some (deleted ++ ids, rest)
      else next

  -- `timestamp` is the time now less the grace.
  unfoldable pub clean : ℕ → ℕ → ℕ → String → List JobRow → Option (List String × List JobRow)
  unfolding clean_loop normalized
  clean fuel timestamp limit type rows = clean_loop fuel (normalized type) timestamp limit [] rows
