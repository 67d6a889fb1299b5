-- ===== src/Getters.antt =====
-- The reads of a queue's jobs by state: src/classes/queue-getters.ts over src/classes/scripts/getters.ts
-- and src/sql/functions/190_getRanges-1.sql. The ids of the jobs in each state, in the ascending
-- order of the query, are a parameter; so are the counts.
pub mod Whole
pub mod Tests
use mathlib.Core.List.{reverse}
use elephantmq.Base.{
  ◌∷◌, leb, ltb, if◌then◌else◌, zero, List, ◌++◌, ◌+◌, ◌-◌, true, filter_by, none, Bool, suc, [],
  map, not, some, str_eq, String, Option, false, ℕ, ◌&&◌, ◌||◌, take, drop, ◌==◌,
}
use elephantmq.Base.Int.{ℤ, pos, negsuc}

pub data JobType : Type 0 where
  completed : JobType
  failed : JobType
  active : JobType
  delayed : JobType
  prioritized : JobType
  waiting : JobType
  waiting_children : JobType
  paused : JobType
  repeat : JobType
  wait : JobType

abbrev pub renamed : JobType → JobType
renamed waiting = wait
renamed t = t

pub data Ordering : Type 0 where
  fifo : Ordering
  sorted : Ordering

unfoldable pub ordering_of : JobType → Ordering
ordering_of active = fifo
ordering_of wait = fifo
ordering_of waiting = fifo
ordering_of paused = fifo
ordering_of _ = sorted

-- The kind of each type, in their order.
unfoldable pub classify_job_types : List JobType → List Ordering
unfolding ordering_of
classify_job_types types = map ordering_of types

abbrev pub is_waiting : JobType → Bool
is_waiting waiting = true
is_waiting _ = false

unfoldable pub has_waiting : List JobType → Bool
has_waiting [] = false
has_waiting (t ∷ ts) = is_waiting t || has_waiting ts

-- `[...new Set(values)]`: each value once, where it first stands.
unfoldable pub distinct {ℓ} : {A : Type ℓ} → (A → A → Bool) → List A → List A
distinct same [] = []
distinct same (x ∷ xs) = x ∷ filter_by (λ y. not (same x y)) (distinct same xs)

unfoldable pub index_of : JobType → ℕ
index_of completed = 0
index_of failed = 1
index_of active = 2
index_of delayed = 3
index_of prioritized = 4
index_of waiting = 5
index_of waiting_children = 6
index_of paused = 7
index_of repeat = 8
index_of wait = 9

abbrev pub same_type : JobType → JobType → Bool
same_type a b = index_of a == index_of b

unfoldable pub sanitize_job_types : List JobType → List JobType
unfolding distinct has_waiting index_of
sanitize_job_types [] =
    active ∷ completed ∷ delayed ∷ failed ∷ paused ∷ prioritized ∷ waiting ∷ waiting_children ∷ []
sanitize_job_types (t ∷ ts) =
    distinct same_type (if has_waiting (t ∷ ts) then (t ∷ ts) ++ paused ∷ [] else t ∷ ts)

-- The function of the database, for an offset and a limit, of jobs that all have the numbers they are
-- ordered by. It puts a job without one last in both directions.
unfoldable pub emq_get_ranges_v1 : List String → ℕ → ℕ → Bool → List String
emq_get_ranges_v1 ids offset limit asc = take limit (drop offset (if asc then ids else reverse ids))

unfoldable pub limit_of : ℕ → ℤ → ℕ
limit_of start (negsuc n) = 1000000
limit_of start (pos last) = last + 1 - start

abbrev pub is_list_backed : JobType → Bool
is_list_backed wait = true
is_list_backed paused = true
is_list_backed active = true
is_list_backed _ = false

-- A new response is joined to the results, reversed where it is asked for in ascending order and is
-- that of a list.
unfoldable pub joined : Bool → Option Ordering → List String → List String
joined true (some fifo) response = reverse response
joined asc kind response = response

unfoldable pub collect : Bool → List Ordering → List (List String) → List String
unfolding joined
collect asc kinds [] = []
collect asc [] (r ∷ rs) = joined asc none r ++ collect asc [] rs
collect asc (k ∷ ks) (r ∷ rs) = joined asc (some k) r ++ collect asc ks rs

module _ (ids_in : JobType → List String) where
  -- One answer for each type, of which the types kept as lists are asked for the other way round.
  unfoldable pub scripts_get_range : ℕ → ℤ → Bool → JobType → List String
  unfolding emq_get_ranges_v1 limit_of
  scripts_get_range start last asc t =
      emq_get_ranges_v1 (ids_in t) start (limit_of start last)
        (if is_list_backed t then not asc else asc)

  unfoldable pub scripts_get_ranges : List JobType → ℕ → ℤ → Bool → List (List String)
  unfolding scripts_get_range
  scripts_get_ranges [] start last asc = scripts_get_range start last asc wait ∷ []
  scripts_get_ranges (t ∷ ts) start last asc =
      map (λ u. scripts_get_range start last asc (renamed u)) (t ∷ ts)

  unfoldable pub get_ranges : List JobType → ℕ → ℤ → Bool → List String
  unfolding classify_job_types collect scripts_get_ranges distinct
  get_ranges types start last asc =
      distinct str_eq
        (collect asc (classify_job_types types) (scripts_get_ranges types start last asc))

  -- The ids of the jobs that `getJobs` loads.
  unfoldable pub get_jobs : List JobType → ℕ → ℤ → Bool → List String
  unfolding get_ranges sanitize_job_types
  get_jobs types start last asc = get_ranges (sanitize_job_types types) start last asc

module _ (count_in : JobType → ℕ) where
  -- A count for each type that is asked for, under its name.
  unfoldable pub get_job_counts : List JobType → List (JobType × ℕ)
  unfolding sanitize_job_types
  get_job_counts types = map (λ t. (t, count_in (renamed t))) (sanitize_job_types types)

  unfoldable pub sum_counts : List (JobType × ℕ) → ℕ
  sum_counts [] = 0
  sum_counts ((t, n) ∷ cs) = n + sum_counts cs

  unfoldable pub get_job_count_by_types : List JobType → ℕ
  unfolding sum_counts get_job_counts
  get_job_count_by_types types = sum_counts (get_job_counts types)
