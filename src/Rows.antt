-- ===== src/Rows.antt =====
-- A row of the database as a job: src/classes/emq-mappers.ts, and `fromJSON` of src/classes/job.ts with
-- job/job-json-parse.ts. JSON and the texts of numbers are a parameter; a time is its milliseconds.
pub mod Mapped
pub mod Read
pub mod Restored
pub mod Worked
pub mod Tests
use elephantmq.Base.{◌∷◌, some, if◌then◌else◌, Option, ℕ, List, str_eq, none, String, ◌++◌, []}

-- `parse` and `parse_int` give nothing where the source throws or gives NaN. `texts_of` is the list that
-- a value is, if it is one; `id_of` is its field `id`, if that is neither null nor undefined.
pub record Runtime (J : Type 0) : Type 0 where
  pub stringify : J → String
  pub parse : String → Option J
  pub number : ℕ → String
  pub parse_int : String → Option ℕ
  pub traces : List String → String
  pub texts_of : J → Option (List String)
  pub entries : J → List (String × J)
  pub object : List (String × J) → J
  pub id_of : J → Option J
  pub text_of : J → Option String
  pub parent_object : String → Option String → J
  pub empty_object : J
  pub zero_value : J
  pub null_value : J

-- The columns that the mappers read. A column of a number is none where it is null.
pub record EmqJobRow (J : Type 0) : Type 0 where
  pub job_id : String
  pub name : String
  pub «data» : Option J
  pub opts : Option J
  pub priority : Option ℕ
  pub delay_ms : Option ℕ
  pub attempts_made : Option ℕ
  pub attempts_started : Option ℕ
  pub stalled_counter : Option ℕ
  pub failed_reason : Option String
  pub stacktrace : Option (List String)
  pub return_value : Option J
  pub progress : Option J
  pub timestamp : ℕ
  pub processed_on : Option ℕ
  pub finished_on : Option ℕ
  pub processed_by : Option String
  pub parent_job_id : Option String
  pub parent_queue_key : Option String
  pub repeat_job_key : Option String
  pub deduplication_id : Option String
  pub deferred_failure : Option String

-- A field is none where it is undefined.
pub record JobJsonRaw : Type 0 where
  pub id : Option String
  pub name : Option String
  pub «data» : Option String
  pub delay : Option String
  pub opts : Option String
  pub progress : Option String
  pub priority : Option String
  pub timestamp : Option String
  pub attempts_made : Option String
  pub attempts_started : Option String
  pub stalled_counter : Option String
  pub failed_reason : Option String
  pub stacktrace : Option String
  pub returnvalue : Option String
  pub processed_on : Option String
  pub finished_on : Option String
  pub parent : Option String
  pub parent_key : Option String
  pub rjk : Option String
  pub deid : Option String
  pub pb : Option String
  pub defa : Option String
  pub atm : Option String
  pub ats : Option String
  pub stc : Option String
  pub nrjid : Option String

pub record JobFields (J : Type 0) : Type 0 where
  pub id : Option String
  pub name : Option String
  pub «data» : J
  pub opts : J
  pub progress : J
  pub delay : Option ℕ
  pub priority : Option ℕ
  pub timestamp : Option ℕ
  pub finished_on : Option ℕ
  pub processed_on : Option ℕ
  pub repeat_job_key : Option String
  pub debounce_id : Option String
  pub deduplication_id : Option String
  pub failed_reason : Option String
  pub attempts_started : Option ℕ
  pub attempts_made : Option ℕ
  pub stalled_counter : Option ℕ
  pub deferred_failure : Option String
  pub stacktrace : List String
  pub returnvalue : Option J
  pub parent_key : Option String
  pub parent : Option J
  pub processed_by : Option String
  pub next_repeatable_job_id : Option String

-- `a ?? b`, and a text that is not empty.
abbrev pub or_value {ℓ} : {A : Type ℓ} → Option A → A → A
or_value none b = b
or_value (some a) b = a

abbrev pub or_else_value {ℓ} : {A : Type ℓ} → Option A → Option A → Option A
or_else_value none b = b
or_else_value (some a) b = some a

unfoldable pub truthy : Option String → Option String
truthy none = none
truthy (some t) = if str_eq t "" then none else some t

unfoldable pub map_option {ℓ κ} : {A : Type ℓ} {B : Type κ} → (A → B) → Option A → Option B
map_option f none = none
map_option f (some a) = some (f a)

unfoldable pub bind_option {ℓ κ} : {A : Type ℓ} {B : Type κ} → Option A → (A → Option B) → Option B
bind_option none f = none
bind_option (some a) f = f a

unfoldable pub or_text : Option String → String → String
unfolding truthy
or_text v d = or_value (truthy v) d
