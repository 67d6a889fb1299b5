-- ===== src/Scheduler.antt =====
-- src/classes/job-scheduler.ts: when the next job of a scheduler runs. Times and periods are
-- milliseconds; the repeat strategy (a cron parser by default) and the stored row are parameters.
pub mod Next
pub mod Tests
use elephantmq.Base.{
  String, ok, false, ℕ, Bool, Result, str_eq, some, err, ◌-◌, ltb, Option, ◌||◌, ◌&&◌, not, ◌*◌,
  if◌then◌else◌, none, ◌==◌, ◌/◌, ◌+◌,
}

pub record RepeatOptions : Type 0 where
  pub pattern : Option String
  pub every : ℕ
  pub limit : Option ℕ
  pub offset : Option ℕ
  pub count : ℕ
  pub immediately : Bool
  pub start_date : Option ℕ
  pub end_date : Option ℕ

-- The columns of the stored scheduler that are read.
pub record Stored : Type 0 where
  pub offset : Option ℕ
  pub every : Option ℕ
  pub next_millis : Option ℕ

pub data SchedulerError : Type 0 where
  both_defined neither_defined both_starts : SchedulerError

-- The slot of the next job: when it is due, which offset is stored, and the iteration's number.
pub record Slot : Type 0 where
  pub next_millis : ℕ
  pub new_offset : Option ℕ
  pub iteration : ℕ

-- An empty pattern and a period of 0 are falsy.
abbrev pub has_pattern : RepeatOptions → Bool
has_pattern o = elim o.pattern [ none ↦ false | some p ↦ not (str_eq p "") ]

abbrev pub has_every : RepeatOptions → Bool
has_every o = ltb 0 o.every

-- `typeof repeatOpts.limit !== 'undefined' && iterationCount > repeatOpts.limit`
abbrev over_limit : Option ℕ → ℕ → Bool
over_limit none n = false
over_limit (some l) n = ltb l n

-- A date of 0 is falsy for the end date, whose value is the Date object or the number.
abbrev is_over : Option ℕ → ℕ → Bool
is_over none now = false
is_over (some e) now = ltb 0 e && ltb e now

abbrev pub or_zero : Option ℕ → ℕ
or_zero none = 0
or_zero (some n) = n

-- The start date if it lies ahead, and otherwise now.
unfoldable pub first_run : Option ℕ → ℕ → ℕ
first_run none now = now
first_run (some s) now = if ltb 0 s && ltb now s then s else now

-- The stored slot, unless the period has changed.
unfoldable pub effective_prev : Stored → ℕ → Option ℕ
effective_prev st every = elim st.every [
  | none ↦ st.next_millis
  | some e ↦ if e == every then st.next_millis else none
]

-- The worker's advance by one period, with the missed slots left out.
unfoldable pub advance : ℕ → ℕ → ℕ → ℕ → ℕ
advance prev every now offset =
    if ltb (prev + every) now then now / every * every + every + offset else prev + every

unfoldable pub next_every : Bool → Option ℕ → ℕ → ℕ → Option ℕ → ℕ → ℕ
unfolding advance first_run
next_every override none every now start offset = first_run start now
next_every override (some prev) every now start offset =
    if override then prev else advance prev every now offset

-- The offset given, or else the stored one.
abbrev pub effective_offset : Option ℕ → Option ℕ → Option ℕ
effective_offset none stored = stored
effective_offset (some o) stored = some o

-- `if (!effectiveOffset) …`: what the slot has beyond a multiple of the period.
unfoldable pub offset_of : ℕ → ℕ → ℕ → ℕ
offset_of effective next every = if effective == 0 then next - next / every * every else effective

-- The period's slot from the stored scheduler; a user's call has it moved to now where it lies in
-- the past.
unfoldable pub every_slot : Stored → RepeatOptions → ℕ → Bool → Slot
unfolding next_every effective_prev offset_of
every_slot st o now override =
    let offset = or_zero (effective_offset o.offset st.offset) in
    let next = next_every override (effective_prev st o.every) o.every now o.start_date offset in
    record {
      next_millis = if override && ltb next now then now else next;
      new_offset = some (offset_of offset next o.every);
      iteration = o.count + 1;
    }

module _ (strategy : ℕ → Option ℕ) where
  -- The slot by the pattern: never before now.
  unfoldable pub by_pattern : ℕ → ℕ
  by_pattern now = elim (strategy now) [ none ↦ now | some t ↦ if ltb t now then now else t ]

  -- By the pattern if there is one, and by the period otherwise. A slot at 0 by the pattern is none.
  unfoldable pub slot_at : Stored → RepeatOptions → ℕ → Bool → Option Slot
  unfolding by_pattern every_slot
  slot_at st o now override =
      if has_pattern o
      then (if by_pattern now == 0
          then none
          else some (record {
            next_millis = by_pattern now;
            new_offset = some 0;
            iteration = o.count + 1;
          }))
      else some (every_slot st o now override)

  -- The slot that `upsertJobScheduler` computes, none where nothing is left to schedule. `clock` is
  -- Date.now() and `prev_millis` the slot of the job at hand, 0 if there is none.
  unfoldable pub next_slot :
      Stored → RepeatOptions → ℕ → ℕ → Bool → Result SchedulerError (Option Slot)
  unfolding slot_at
  next_slot st o clock prev_millis override =
      if has_pattern o && has_every o
      then err both_defined
      else if not (has_pattern o) && not (has_every o)
      then err neither_defined
      else if o.immediately && ltb 0 (or_zero o.start_date)
      then err both_starts
      else if over_limit o.limit (o.count + 1) || is_over o.end_date clock
      then ok none
      else ok (slot_at st o (if ltb prev_millis clock then clock else prev_millis) override)
