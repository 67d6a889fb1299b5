-- ===== src/Enqueue.antt =====
-- `validateEnqueueJobOptions` of src/classes/job/job-enqueue-validation.ts. Texts are lists of code
-- points. Whether a text reads as an integer and is that integer's text is a parameter.
pub mod Rules
pub mod Tests
use elephantmq.Base.{
  err, false, ℕ, Option, Bool, some, ◌&&◌, ◌==◌, ◌∷◌, ok, true, Result, ◌+◌, ltb, not, [],
  if◌then◌else◌, none, List,
}
use elephantmq.Base.Int.{pos, negsuc, ℤ}
use elephantmq.Keys.{Text}

pub data EnqueueError : Type 0 where
  too_large delay_and_repeat exclusive_options integer_id colon_in_id : EnqueueError
  float_priority high_priority no_deduplication_id deduplication_and_parent : EnqueueError
  bad_jitter : EnqueueError

-- A JavaScript number, as far as it is looked at: an integer, or not.
pub data Priority : Type 0 where
  whole : ℤ → Priority
  float : Priority

-- A jitter that is a number: a fraction.
pub record Jitter : Type 0 where
  pub num : ℤ
  pub den : ℕ

-- The options that are looked at. A size limit and a count of 0 are falsy, as is a delay of 0; of
-- `backoff` only a jitter that is a number counts.
pub record EnqueueOptions : Type 0 where
  pub size_limit : ℕ
  pub delay : ℕ
  pub repeat_count : Option ℕ
  pub remove_dependency_on_failure : Bool
  pub fail_parent_on_failure : Bool
  pub continue_parent_on_failure : Bool
  pub ignore_dependency_on_failure : Bool
  pub job_id : Text
  pub priority : Option Priority
  pub deduplication : Option Text
  pub jitter : Option Jitter

-- The bytes of a code point in UTF-8, and of a text.
abbrev pub utf8_size : ℕ → ℕ
utf8_size c = if ltb c 0x80 then 1 else if ltb c 0x800 then 2 else if ltb c 0x10000 then 3 else 4

unfoldable pub length_in_utf8_bytes : Text → ℕ
length_in_utf8_bytes [] = 0
length_in_utf8_bytes (c ∷ cs) = utf8_size c + length_in_utf8_bytes cs

abbrev pub priority_limit : ℕ
priority_limit = 2097152

abbrev pub one_if : Bool → ℕ
one_if true = 1
one_if false = 0

abbrev pub exclusive_count : EnqueueOptions → ℕ
exclusive_count o =
    one_if o.remove_dependency_on_failure
    + one_if o.fail_parent_on_failure
    + one_if o.continue_parent_on_failure
    + one_if o.ignore_dependency_on_failure

-- `id.split(':').length` is this number and one.
unfoldable pub count_colons : Text → ℕ
count_colons [] = 0
count_colons (c ∷ cs) = one_if (c == b':') + count_colons cs

abbrev pub is_zero : Option ℕ → Bool
is_zero none = false
is_zero (some n) = n == 0

abbrev pub is_empty : Text → Bool
is_empty [] = true
is_empty (_ ∷ _) = false

abbrev pub is_float : Option Priority → Bool
is_float (some float) = true
is_float _ = false

-- A priority that is negative is not too high.
abbrev pub is_high : Option Priority → Bool
is_high (some (whole (pos n))) = ltb priority_limit n
is_high _ = false

abbrev pub lacks_id : Option Text → Bool
lacks_id (some []) = true
lacks_id _ = false

abbrev pub is_given : Option Text → Bool
is_given none = false
is_given (some _) = true

abbrev pub is_bad : Option Jitter → Bool
is_bad none = false
is_bad (some j) = elim j.num [ negsuc n ↦ true | pos n ↦ ltb j.den n ]

-- The checks in their order: `if (test) throw error`.
abbrev pub first_error : List (Bool × EnqueueError) → Result EnqueueError (Unit {0})
first_error [] = ok tt
first_error ((true, e) ∷ rest) = err e
first_error ((false, e) ∷ rest) = first_error rest

module _ (is_integer_text : Text → Bool) where
  abbrev pub checks : EnqueueOptions → Text → Text → List (Bool × EnqueueError)
  checks o job_data parent_key =
      (ltb 0 o.size_limit && ltb o.size_limit (length_in_utf8_bytes job_data), too_large)
      ∷ (ltb 0 o.delay && is_zero o.repeat_count, delay_and_repeat)
      ∷ (ltb 1 (exclusive_count o), exclusive_options)
      ∷ (not (is_empty o.job_id) && is_integer_text o.job_id, integer_id)
      ∷ (ltb 0 (count_colons o.job_id) && not (count_colons o.job_id == 2), colon_in_id)
      ∷ (is_float o.priority, float_priority)
      ∷ (is_high o.priority, high_priority)
      ∷ (lacks_id o.deduplication, no_deduplication_id)
      ∷ (is_given o.deduplication && not (is_empty parent_key), deduplication_and_parent)
      ∷ (is_bad o.jitter, bad_jitter)
      ∷ []

  unfoldable pub validate : EnqueueOptions → Text → Text → Result EnqueueError (Unit {0})
  validate o job_data parent_key = first_error (checks o job_data parent_key)
