-- ===== src/Trimmer.antt =====
-- The trimming of a queue's events, src/classes/events-trimmer.ts. The table is a list of rows.
pub mod Bound
pub mod Tests
use elephantmq.Base.{
  List, if◌then◌else◌, ℕ, ◌==◌, [], ltb, max, filter_by, some, ◌∷◌, length, leb, not, ◌||◌, ◌-◌,
  Bool, none, Option,
}

pub record EmqEvent : Type 0 where
  pub queue_id : ℕ
  pub id : ℕ

-- `streams.events.trim.maxLen` goes before `streams.events.maxLen`; 0 is no limit.
unfoldable pub resolve_events_trim_max_len : Option ℕ → Option ℕ → Option ℕ
resolve_events_trim_max_len none none = none
resolve_events_trim_max_len none (some m) = if ltb 0 m then some m else none
resolve_events_trim_max_len (some m) own = if ltb 0 m then some m else none

abbrev pub or_larger : ℕ → Option ℕ → ℕ
or_larger n none = n
or_larger n (some m) = max n m

-- `select max(id) ... where queue_id = $1`
unfoldable pub max_id : ℕ → List EmqEvent → Option ℕ
max_id q [] = none
max_id q (e ∷ es) =
    let rest = max_id q es in if e.queue_id == q then some (or_larger e.id rest) else rest

-- Whether the deletion spares a row.
abbrev pub is_kept : ℕ → ℕ → EmqEvent → Bool
is_kept q threshold e = not (e.queue_id == q) || leb threshold e.id

-- The rows that are left, and how many were deleted.
unfoldable pub trim_events_for_queue : ℕ → ℕ → List EmqEvent → List EmqEvent × ℕ
unfolding max_id
trim_events_for_queue q max_len es = if max_len == 0 then (es, 0) else elim (max_id q es) [
  | none ↦ (es, 0)
  | some newest ↦
      let left = filter_by (is_kept q (newest - max_len)) es in (left, length es - length left)
]

-- One tick of the periodic trim: nothing is done without a limit.
unfoldable pub trim_tick : ℕ → Option ℕ → Option ℕ → List EmqEvent → List EmqEvent
unfolding trim_events_for_queue resolve_events_trim_max_len
trim_tick q trim own es = elim (resolve_events_trim_max_len trim own) [
  | none ↦ es
  | some max_len ↦ (trim_events_for_queue q max_len es).0
]
