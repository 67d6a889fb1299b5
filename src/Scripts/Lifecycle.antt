-- ===== src/Scripts/Lifecycle.antt =====
-- src/classes/scripts/lifecycle.ts. A script is the call of an SQL function and the reading of the
-- row that it answers; the function itself, and the database, are parameters.
use elephantmq.Base.{
  String, Option, Bool, List, ℕ, some, false, none, true, ◌∷◌, [], if◌then◌else◌, str_eq, ◌==◌,
  Result, err, ok,
}
use elephantmq.Base.Int.{ℤ, pos, negsuc, ◌+ℤ◌}
use elephantmq.Scripts.Keep.{
  FinishedParams, or_else, QueueContext, FailureFields, FinishedStatus, Limiter, completed, failed,
}
use elephantmq.Scripts.Errors.{Subject, finished_errors, number_of, job_not_exist, ScriptError}

-- One constructor for each SQL function, with the arguments behind the queue's id.
pub data Call : Type 0 where
  extend_lock : String → String → ℕ → Call
  extend_locks : List String → List String → ℕ → Call
  finish :
      FinishedParams → Option String → Option String → Option (List String) → Option Limiter → Call
  change_delay : String → ℕ → ℕ → Call
  change_priority : String → ℕ → Bool → Call
  is_maxed : Call
  delay :
      String → ℤ → String → FailureFields → ℤ → Bool → ℕ → Option String → Option Limiter → ℕ → Call
  wait_children : String → String → Option String → Call
  retry : String → String → ℕ → Bool → FailureFields → Call
  move_jobs : String → ℕ → ℕ → Call
  reprocess : String → Bool → Bool → FinishedStatus → Call
  activate : ℕ → String → ℕ → Option String → Option Limiter → Call
  promote : String → Call
  recover_stalled : Option ℕ → Call
  back_to_wait : String → String → Call

-- The columns of an answer. `code` is the numeric result (`c`, `r` or `err_code`).
pub record Reply (Row : Type 0) : Type 0 where
  pub code : Option ℤ
  pub flag : Option Bool
  pub job_row : Option Row
  pub job_id : Option String
  pub rate_limit_delay : Option ℤ
  pub block_until : Option ℤ
  pub ids : Option (List String)
  pub failed_ids : Option (List String)

-- `[jobData, id, rateLimitDelay, delayUntil]`
pub record NextJob (Row : Type 0) : Type 0 where
  pub job_data : Option Row
  pub id : Option String
  pub rate_limit_delay : ℤ
  pub delay_until : ℤ

pub record Script (Row : Type 0) (A : Type 0) : Type 0 where
  pub call : Call
  pub read : Option (Reply Row) → Result ScriptError A

abbrev pub about : String → String → Option String → Subject
about job_id command state = record {
  job_id = some job_id;
  parent_key = none;
  command = command;
  state = state;
}

abbrev pub is_negative : ℤ → Bool
is_negative (pos n) = false
is_negative (negsuc n) = true

-- `if (result < 0) throw this.finishedErrors(…)`
unfoldable pub check {ℓ} : {A : Type ℓ} → Subject → ℤ → A → Result ScriptError A
check s code a = if is_negative code then err (finished_errors code s) else ok a

-- `val !== undefined && val !== null && val !== 'null'`
abbrev return_json : FinishedParams → Option String
return_json p = elim p.target [ completed ↦ unless_null p.val | failed ↦ none ]
  where
    unless_null : Option String → Option String
    unless_null none = none
    unless_null (some v) = if str_eq v "null" then none else some v

-- `String(params.val)` of an undefined value
abbrev reason : FinishedParams → Option String
reason p = elim p.target [
  | completed ↦ p.failed_reason
  | failed ↦ some (or_else p.failed_reason (or_else p.val "undefined"))
]

abbrev nonempty : Option (List String) → Option (List String)
nonempty none = none
nonempty (some []) = none
nonempty (some (t ∷ ts)) = some (t ∷ ts)

module _ {Row : Type 0} where
  -- `r?.code ?? missing`
  abbrev pub code_or : ℤ → Option (Reply Row) → ℤ
  code_or missing none = missing
  code_or missing (some r) = or_else r.code missing

  abbrev no_job : Option (Reply Row) → NextJob Row
  no_job none = record { job_data = none; id = none; rate_limit_delay = pos 0; delay_until = pos 0 }
  no_job (some r) = record {
    job_data = none;
    id = none;
    rate_limit_delay = or_else r.rate_limit_delay (pos 0);
    delay_until = or_else r.block_until (pos 0);
  }

  abbrev with_job : Reply Row → Row → String → NextJob Row
  with_job r row id = record {
    job_data = some row;
    id = some id;
    rate_limit_delay = or_else r.rate_limit_delay (pos 0);
    delay_until = or_else r.block_until (pos 0);
  }

  -- The next job of an answer, if both its row and its id are there.
  unfoldable pub next_of : Option (Reply Row) → NextJob Row
  next_of none = no_job none
  next_of (some r) = elim r.job_row [
    | none ↦ no_job (some r)
    | some row ↦ elim r.job_id [ none ↦ no_job (some r) | some id ↦ with_job r row id ]
  ]

  -- A finished job passes the id on even where the row is missing.
  abbrev finished_id : Option (Reply Row) → Option String
  finished_id none = none
  finished_id (some r) = r.job_id

  -- `r.err_code < 0` of a row that is there.
  abbrev has_failed : Reply Row → Bool
  has_failed r = elim r.code [ none ↦ false | some c ↦ is_negative c ]

  unfoldable pub move_to_finished : QueueContext → FinishedParams → Script Row (NextJob Row)
  unfolding next_of
  move_to_finished q p = record {
    call = finish p (return_json p) (reason p) (nonempty p.stacktrace) q.limiter;
    read = elim [
      | none ↦ err (finished_errors (number_of job_not_exist) subject)
      | some r ↦
          if has_failed r
          then err (finished_errors (code_or (negsuc 0) (some r)) subject)
          else ok (record (next_of (some r)) { id = r.job_id })
    ];
  }
    where
      subject : Subject
      subject = about p.job_id "moveToFinished" (some "active")

  -- The scripts that answer nothing but a code.
  unfoldable pub coded : Call → Subject → Script Row (Unit {0})
  unfolding check
  coded call s = record { call = call; read = λ r. check s (code_or (negsuc 0) r) tt }

  unfoldable pub change_delay_script : String → ℕ → ℕ → Script Row (Unit {0})
  unfolding coded
  change_delay_script job_id d now =
      coded (change_delay job_id d now) (about job_id "changeDelay" (some "delayed"))

  unfoldable pub change_priority_script : String → ℕ → Bool → Script Row (Unit {0})
  unfolding coded
  change_priority_script job_id priority lifo =
      coded (change_priority job_id priority lifo) (about job_id "changePriority" none)

  unfoldable pub promote_script : String → Script Row (Unit {0})
  unfolding coded
  promote_script job_id = coded (promote job_id) (about job_id "promote" (some "delayed"))

  unfoldable pub retry_job : String → Bool → String → FailureFields → ℕ → Script Row (Unit {0})
  unfolding coded
  retry_job job_id lifo token fields now =
      coded (retry job_id token now lifo fields) (about job_id "retryJob" (some "active"))

  -- `fetchNext` decides between the next job and nothing.
  unfoldable pub move_to_delayed :
      QueueContext
      → String
      → ℕ
      → ℤ
      → String
      → FailureFields
      → Bool
      → ℕ
      → Script Row (Option (NextJob Row))
  unfolding check next_of
  move_to_delayed q job_id timestamp d token fields fetch_next now = record {
    call =
        delay job_id (pos timestamp +ℤ d) token fields d fetch_next (or_else q.lock_duration 30000)
          q.name q.limiter now;
    read = λ r.
        check (about job_id "moveToDelayed" (some "active")) (code_or (negsuc 0) r)
          (if fetch_next then some (next_of r) else none);
  }

  unfoldable pub move_to_waiting_children : String → String → Option String → Script Row Bool
  move_to_waiting_children job_id token child = record {
    call = wait_children job_id token child;
    read = λ r. answer (code_or (negsuc 0) r);
  }
    where
      answer : ℤ → Result ScriptError Bool
      answer (pos n) =
          if n == 0
          then ok true
          else if n == 1
          then ok false
          else err (finished_errors (pos n) (about job_id "moveToWaitingChildren" (some "active")))
      answer (negsuc n) =
          err (finished_errors (negsuc n) (about job_id "moveToWaitingChildren" (some "active")))

  unfoldable pub reprocess_job : String → FinishedStatus → Bool → Bool → Script Row (Unit {0})
  reprocess_job job_id state reset_made reset_started = record {
    call = reprocess job_id reset_made reset_started state;
    read = λ r. answer (code_or (pos 0) r);
  }
    where
      state_name : String
      state_name = elim state [ completed ↦ "completed" | failed ↦ "failed" ]

      answer : ℤ → Result ScriptError (Unit {0})
      answer (pos n) =
          if n == 1
          then ok tt
          else err (finished_errors (pos n) (about job_id "reprocessJob" (some state_name)))
      answer (negsuc n) =
          err (finished_errors (negsuc n) (about job_id "reprocessJob" (some state_name)))

  -- A negative code is an error; any other is the result.
  unfoldable pub back_to_wait_script : String → String → Script Row ℤ
  unfolding check
  back_to_wait_script job_id token = record {
    call = back_to_wait job_id token;
    read = λ r.
        check (about job_id "moveJobFromActiveToWait" (some "active")) (code_or (negsuc 0) r)
          (code_or (negsuc 0) r);
  }

  -- The next job, if the answer has an id.
  unfoldable pub move_to_active :
      QueueContext → String → Option String → ℕ → Script Row (NextJob Row)
  unfolding next_of
  move_to_active q token name now = record {
    call = activate now token (or_else q.lock_duration 30000) name q.limiter;
    read = λ r. ok (next_of r);
  }

  pub move_stalled_jobs_to_wait : QueueContext → Script Row (List String × List String)
  move_stalled_jobs_to_wait q = record {
    call = recover_stalled q.max_stalled_count;
    read = elim [ none ↦ ok ([], []) | some r ↦ ok (or_else r.ids [], or_else r.failed_ids []) ];
  }

  pub extend_lock_script : String → String → ℕ → Script Row ℤ
  extend_lock_script job_id token duration = record {
    call = extend_lock job_id token duration;
    read = λ r. ok (code_or (negsuc 1) r);
  }

  -- The answer holds the jobs whose lock could not be extended.
  pub extend_locks_script : List String → List String → ℕ → Script Row (List String)
  extend_locks_script job_ids tokens duration = record {
    call = extend_locks job_ids tokens duration;
    read = elim [ none ↦ ok [] | some r ↦ ok (or_else r.ids []) ];
  }
