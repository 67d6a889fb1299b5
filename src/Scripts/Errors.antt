-- ===== src/Scripts/Errors.antt =====
-- src/classes/scripts/base.ts and src/enums/error-code.ts: from negative codes to errors.
use elephantmq.Base.Int.{ℤ, negsuc, pos}
use elephantmq.Base.{
  Option, Bool, ◌≡◌, String, true, some, none, false, arith, ◌↔◌, if◌then◌else◌, ◌==◌,
}

pub data ErrorCode : Type 0 where
  job_not_exist job_lock_not_exist job_not_in_state job_pending_children : ErrorCode
  parent_job_not_exist job_lock_mismatch parent_job_cannot_be_replaced : ErrorCode
  job_belongs_to_job_scheduler job_has_failed_children : ErrorCode
  scheduler_job_id_collision scheduler_job_slots_busy : ErrorCode

abbrev pub number_of : ErrorCode → ℤ
number_of job_not_exist = negsuc 0
number_of job_lock_not_exist = negsuc 1
number_of job_not_in_state = negsuc 2
number_of job_pending_children = negsuc 3
number_of parent_job_not_exist = negsuc 4
number_of job_lock_mismatch = negsuc 5
number_of parent_job_cannot_be_replaced = negsuc 6
number_of job_belongs_to_job_scheduler = negsuc 7
number_of job_has_failed_children = negsuc 8
number_of scheduler_job_id_collision = negsuc 9
number_of scheduler_job_slots_busy = negsuc 10

-- What a failing call is about.
pub record Subject : Type 0 where
  pub job_id : Option String
  pub parent_key : Option String
  pub command : String
  pub state : Option String

-- The texts of the errors, by the template that they fill.
pub data Message : Type 0 where
  missing_key missing_lock pending_dependencies : Option String → String → Message
  not_in_state lock_mismatch : Option String → Option String → String → Message
  missing_parent parent_not_replaced : Option String → String → Message
  belongs_to_scheduler failed_child : Option String → String → Message
  id_collision slots_busy : String → Message
  unknown_code : ℤ → Option String → String → Message

pub record ScriptError : Type 0 where
  pub message : Message
  pub unrecoverable : Bool
  pub code : ℤ

-- The `case` labels of the switch.
pub case_of : ℤ → Option ErrorCode
case_of (pos n) = none
case_of (negsuc n) =
    if n == 0
    then some job_not_exist
    else if n == 1
    then some job_lock_not_exist
    else if n == 2
    then some job_not_in_state
    else if n == 3
    then some job_pending_children
    else if n == 4
    then some parent_job_not_exist
    else if n == 5
    then some job_lock_mismatch
    else if n == 6
    then some parent_job_cannot_be_replaced
    else if n == 7
    then some job_belongs_to_job_scheduler
    else if n == 8
    then some job_has_failed_children
    else if n == 9
    then some scheduler_job_id_collision
    else if n == 10
    then some scheduler_job_slots_busy
    else none

pub message_of : ErrorCode → Subject → Message
message_of job_not_exist s = missing_key s.job_id s.command
message_of job_lock_not_exist s = missing_lock s.job_id s.command
message_of job_not_in_state s = not_in_state s.job_id s.state s.command
message_of job_pending_children s = pending_dependencies s.job_id s.command
message_of parent_job_not_exist s = missing_parent s.parent_key s.command
message_of job_lock_mismatch s = lock_mismatch s.job_id s.state s.command
message_of parent_job_cannot_be_replaced s = parent_not_replaced s.parent_key s.command
message_of job_belongs_to_job_scheduler s = belongs_to_scheduler s.job_id s.command
message_of job_has_failed_children s = failed_child s.job_id s.command
message_of scheduler_job_id_collision s = id_collision s.command
message_of scheduler_job_slots_busy s = slots_busy s.command

-- Only one of the errors is an UnrecoverableError.
abbrev is_unrecoverable : ErrorCode → Bool
is_unrecoverable job_has_failed_children = true
is_unrecoverable _ = false

pub finished_errors : ℤ → Subject → ScriptError
unfolding case_of message_of
finished_errors code s = elim (case_of code) [
  | none ↦ record {
    message = unknown_code code s.job_id s.command;
    unrecoverable = false;
    code = code;
  }
  | some c ↦ record { message = message_of c s; unrecoverable = is_unrecoverable c; code = code }
]

-- Every code of the enumeration is told apart by the switch.
pub case_of-number_of : (c : ErrorCode) → case_of (number_of c) ≡ some c
unfolding case_of
case_of-number_of c = ground arith

-- The error for a code of the enumeration carries that code and its message, and it is unrecoverable, so that the
-- job is not tried again, exactly for a parent with a failed child.
finished_errors_known :
    (c : ErrorCode) (s : Subject)
    → ((finished_errors (number_of c) s).code ≡ number_of c)
      × ((finished_errors (number_of c) s).message ≡ message_of c s)
      × (((finished_errors (number_of c) s).unrecoverable ≡ true) ↔ (c ≡ job_has_failed_children))
unfolding finished_errors
finished_errors_known c s = ground arith

pub finished_errors-code : (code : ℤ) (s : Subject) → (finished_errors code s).code ≡ code
unfolding finished_errors
finished_errors-code code s = ground arith
