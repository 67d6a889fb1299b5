-- ===== src/Job.antt =====
-- src/classes/job.ts: the operations by which a job object asks the database to move it, and what
-- they leave in the object. Tracing, telemetry and metrics are left out; the calls of Date.now() in
-- one operation give one value.
pub mod Retries
pub mod Atomic
pub mod Tests
use Prim.Native.String
use elephantmq.Base.{
  ℕ, String, Option, List, Bool, drop, length, [], none, if◌then◌else◌, ◌-◌, some, true, false, suc,
  str_eq, ◌++◌, ◌∷◌, zero, Result, ok, ltb, ◌+◌, ◌&&◌, not, err,
}
use elephantmq.Base.Int.{ℤ, negsuc, pos}
use elephantmq.Scripts.Errors.{ScriptError}
use elephantmq.Scripts.Lifecycle.{
  Call, Script, Reply, back_to_wait_script, move_to_waiting_children, promote_script,
  change_delay_script, change_priority_script, NextJob, move_to_delayed, reprocess_job,
  move_to_finished, retry_job,
}
use elephantmq.Scripts.Keep.{
  or_else, Removal, FailureFields, flag, QueueContext, FinishedStatus, move_to_failed_args,
  move_to_completed_args,
}
use elephantmq.Backoffs.{
  BackoffOptions, BackoffError, Value, Fraction, number, Strategy, undefined, nan, calculate,
}

pub record JobOptions : Type 0 where
  pub attempts : ℕ
  pub backoff : Option BackoffOptions
  pub lifo : Option Bool
  pub remove_on_complete : Option Removal
  pub remove_on_fail : Option Removal
  pub stack_trace_limit : Option ℕ

-- `returnvalue` is held as its JSON text, with none for null.
pub record Job : Type 0 where
  pub id : String
  pub opts : JobOptions
  pub attempts_made : ℕ
  pub attempts_started : ℕ
  pub delay : ℤ
  pub priority : ℕ
  pub failed_reason : Option String
  pub stacktrace : Option (List String)
  pub finished_on : Option ℕ
  pub processed_on : Option ℕ
  pub returnvalue : Option String

-- What a processor throws. `unrecoverable` is the test of the class and of the name.
pub record Failure : Type 0 where
  pub message : Option String
  pub stack : Option String
  pub unrecoverable : Bool

pub data OpError : Type 0 where
  script : ScriptError → OpError
  backoff : BackoffError → OpError
  not_json : OpError

abbrev pub Outcome : Type 0 → Type 0
Outcome A = Result OpError A

-- An operation stops before it asks the database, or makes one call and reads its answer.
pub data Operation (Row : Type 0) (A : Type 0) : Type 0 where
  stopped : Job → OpError → Operation Row A
  asks : Call → (Option (Reply Row) → Job × Outcome A) → Operation Row A

abbrev pub run : {Row A : Type 0} → (Call → Option (Reply Row)) → Operation Row A → Job × Outcome A
run db (stopped j e) = (j, err e)
run db (asks call after) = after (db call)

-- The object is `before` where the script throws, and `after` where it gives a value.
settle : {A B : Type 0} → Job → (A → Job × B) → Result ScriptError A → Job × Outcome B
settle before after (err e) = (before, err (script e))
settle before after (ok a) = let (j, b) = after a in (j, ok b)

pub ask : {Row A B : Type 0} → Job → (A → Job × B) → Script Row A → Operation Row B
unfolding settle
ask before after s = asks s.call (λ reply. settle before after (s.read reply))

-- `this.stacktrace.slice(-limit)`
abbrev last_of {ℓ} : {A : Type ℓ} → ℕ → List A → List A
last_of n xs = drop (length xs - n) xs

-- An empty stack is falsy.
pub update_stacktrace : Failure → Job → Job
update_stacktrace e j = record j { stacktrace = some (traces e.stack) }
  where
    old : List String
    old = or_else j.stacktrace []

    trimmed : Option ℕ → List String → List String
    trimmed none xs = xs
    trimmed (some zero) xs = []
    trimmed (some (suc n)) xs = last_of (suc n) xs

    traces : Option String → List String
    traces none = old
    traces (some s) = if str_eq s "" then old else trimmed j.opts.stack_trace_limit (old ++ s ∷ [])

-- `typeof delay === 'number' ? delay : -1`
abbrev as_number : Value → Value
as_number undefined = number (negsuc 0)
as_number nan = nan
as_number (number d) = number d

abbrev is_minus_one : Value → Bool
is_minus_one (number (negsuc zero)) = true
is_minus_one _ = false

-- A delay that is truthy: neither 0 nor NaN.
abbrev pub truthy : Value → Option ℤ
truthy undefined = none
truthy nan = none
truthy (number (pos zero)) = none
truthy (number d) = some d

-- Whether to try again, and after what delay.
abbrev verdict : Value → Bool × Value
verdict v = if is_minus_one (as_number v) then (false, number (pos 0)) else (true, as_number v)

pub should_retry_job :
    Fraction → Option (Strategy Failure Job) → Job → Failure → Result BackoffError (Bool × Value)
should_retry_job random custom j e =
    if ltb (j.attempts_made + 1) j.opts.attempts && not e.unrecoverable
    then elim (calculate random j.opts.backoff (j.attempts_made + 1) e j custom) [
      | err x ↦ err x
      | ok v ↦ ok (verdict v)
    ]
    else ok (false, number (pos 0))

-- What a retried or failed job carries to the database.
abbrev fields_of : Job → FailureFields
fields_of j = record { failed_reason = j.failed_reason; stacktrace = j.stacktrace }

-- A job that is moved by its own processor carries none.
abbrev nothing_failed : FailureFields
nothing_failed = record { failed_reason = none; stacktrace = none }

abbrev keep_or : Option Removal → Removal
keep_or r = or_else r (flag false)

module _ {Row : Type 0} (q : QueueContext) (now : ℕ) where
  -- After a retry with a delay, after an immediate one, and after the last failure.
  delayed_again : ℤ → Job → Option (NextJob Row) → Job × Option (NextJob Row)
  delayed_again d j next = (record j { delay = d; attempts_made = j.attempts_made + 1 }, next)

  retried : Job → Unit {0} → Job × Option (NextJob Row)
  retried j _ = (record j { attempts_made = j.attempts_made + 1 }, none)

  finished : Job → NextJob Row → Job × Option (NextJob Row)
  finished j next = (
    record j { finished_on = some now; delay = pos 0; attempts_made = j.attempts_made + 1 },
    some next,
  )

  -- The three branches of `moveToFailed`, once the decision is made.
  dispatch : Job → String → Bool → Bool × Value → Operation Row (Option (NextJob Row))
  unfolding ask delayed_again retried finished
  dispatch j token fetch_next (false, _) = ask j (finished j) (
      move_to_finished q (
        move_to_failed_args q j.id (or_else j.failed_reason "") (keep_or j.opts.remove_on_fail)
          token fetch_next (fields_of j) now))
  dispatch j token fetch_next (true, delay) = elim (truthy delay) [
    | none ↦ ask j (retried j) (retry_job j.id (or_else j.opts.lifo false) token (fields_of j) now)
    | some d ↦
        ask j (delayed_again d j) (move_to_delayed q j.id now d token (fields_of j) fetch_next now)
  ]

  pub move_to_failed :
      Fraction
      → Option (Strategy Failure Job)
      → Job
      → Failure
      → String
      → Bool
      → Operation Row (Option (NextJob Row))
  unfolding should_retry_job update_stacktrace dispatch
  move_to_failed random custom j e token fetch_next =
      let named = record j { failed_reason = e.message } in
      elim (should_retry_job random custom named e) [
        | err x ↦ stopped named (backoff x)
        | ok decision ↦ dispatch (update_stacktrace e named) token fetch_next decision
      ]

  -- The value that a processor returns: its JSON text (none for undefined), or a value that has no
  -- JSON text (that the object then holds such a value is left out).
  pub move_to_completed : Job → Option (Option String) → String → Bool → Operation Row (NextJob Row)
  unfolding ask
  move_to_completed j none token fetch_next = stopped j not_json
  move_to_completed j (some json) token fetch_next =
      let valued = record j { returnvalue = json } in
      ask valued
        (λ next.
          (record valued { finished_on = some now; attempts_made = j.attempts_made + 1 }, next))
        (move_to_finished q (
          move_to_completed_args q j.id json (keep_or j.opts.remove_on_complete) token fetch_next
            now))

  pub move_to_delayed_until : Job → ℕ → Option String → Operation Row (Unit {0})
  unfolding ask
  move_to_delayed_until j timestamp token =
      let delay = pos (timestamp - now) in
      ask j (λ _. (record j { delay = delay }, tt))
        (move_to_delayed q j.id now delay (or_else token "0") nothing_failed false now)

module _ {Row : Type 0} where
  pub move_to_wait : Job → Option String → Operation Row ℤ
  unfolding ask
  move_to_wait j token = ask j (λ n. (j, n)) (back_to_wait_script j.id (or_else token "0"))

  -- True if the job now waits for its children.
  pub wait_for_children : Job → String → Option (String × String) → Operation Row Bool
  unfolding ask
  wait_for_children j token child =
      ask j (λ moved. (j, moved)) (move_to_waiting_children j.id token (child_key child))
    where
      child_key : Option (String × String) → Option String
      child_key none = none
      child_key (some (queue, id)) = some (String.◌++◌ queue (String.◌++◌ ":" id))

  pub promote_job : Job → Operation Row (Unit {0})
  unfolding ask
  promote_job j = ask j (λ _. (record j { delay = pos 0 }, tt)) (promote_script j.id)

  pub change_delay_of : Job → ℕ → ℕ → Operation Row (Unit {0})
  unfolding ask
  change_delay_of j delay now =
      ask j (λ _. (record j { delay = pos delay }, tt)) (change_delay_script j.id delay now)

  pub change_priority_of : Job → Option ℕ → Option Bool → Operation Row (Unit {0})
  unfolding ask
  change_priority_of j priority lifo =
      ask j (λ _. (record j { priority = or_else priority 0 }, tt))
        (change_priority_script j.id (or_else priority 0) (or_else lifo false))

  -- `retry`: back from the failed or completed jobs.
  pub retry_finished : Job → FinishedStatus → Bool → Bool → Operation Row (Unit {0})
  unfolding ask
  retry_finished j state reset_made reset_started =
      ask j (λ _. (reset, tt)) (reprocess_job j.id state reset_made reset_started)
    where
      reset : Job
      reset = record j {
        failed_reason = none;
        finished_on = none;
        processed_on = none;
        returnvalue = none;
        attempts_made = if reset_made then 0 else j.attempts_made;
        attempts_started = if reset_started then 0 else j.attempts_started;
      }
