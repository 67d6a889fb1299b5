-- ===== src/Scripts/Answers.antt =====
-- How the scripts of src/classes/scripts/lifecycle.ts read an answer that is no error, and one that
-- is.
use elephantmq.Base.{Option, ◌≡◌, some, if◌then◌else◌, ℕ, ok, none, String, err, Bool}
use elephantmq.Base.Int.{pos, ℤ, negsuc}
use elephantmq.Scripts.Lifecycle.{
  Reply, code_or, move_to_finished, retry_job, NextJob, next_of, move_to_delayed, about,
}
use elephantmq.Scripts.Keep.{FinishedParams, QueueContext, FailureFields}
use elephantmq.Scripts.Errors.{finished_errors}

module _ {Row : Type 0} where
  -- The database answers, and not with an error.
  abbrev pub Accepts : Option (Reply Row) → Type 0
  Accepts none = ⊥
  Accepts (some r) = r.code ≡ some (pos 0)

  -- It answers with the negative code -(n + 1).
  abbrev pub Refuses : ℕ → Option (Reply Row) → Type 0
  Refuses n none = ⊥
  Refuses n (some r) = r.code ≡ some (negsuc n)

  Accepts-code_or : (r : Option (Reply Row)) → Accepts r → code_or (negsuc 0) r ≡ pos 0
  Accepts-code_or none a = absurd a
  Accepts-code_or (some r) a = rw a

  Refuses-code_or : (n : ℕ) (r : Option (Reply Row)) → Refuses n r → code_or (negsuc 0) r ≡ negsuc n
  Refuses-code_or n none a = absurd a
  Refuses-code_or n (some r) a = rw a

  module _ (r : Option (Reply Row)) (a : Accepts r) where
    pub retry_job_accepted :
        (job_id token : String) (lifo : Bool) (fields : FailureFields) (now : ℕ)
        → (retry_job job_id lifo token fields now).read r ≡ ok tt
    unfolding retry_job
    retry_job_accepted job_id token lifo fields now = rw (Accepts-code_or r a)

    pub move_to_delayed_accepted :
        (q : QueueContext) (job_id token : String) (timestamp : ℕ) (d : ℤ) (fields : FailureFields)
        (fetch_next : Bool) (now : ℕ)
        → (move_to_delayed q job_id timestamp d token fields fetch_next now).read r
          ≡ ok (if fetch_next then some (next_of r) else none)
    unfolding move_to_delayed
    move_to_delayed_accepted q job_id token timestamp d fields fetch_next now =
        rw (Accepts-code_or r a)

  module _ (n : ℕ) (r : Option (Reply Row)) (a : Refuses n r) where
    pub retry_job_refused :
        (job_id token : String) (lifo : Bool) (fields : FailureFields) (now : ℕ)
        → (retry_job job_id lifo token fields now).read r
          ≡ err (finished_errors (negsuc n) (about job_id "retryJob" (some "active")))
    unfolding retry_job
    retry_job_refused job_id token lifo fields now = rw (Refuses-code_or n r a)

    pub move_to_delayed_refused :
        (q : QueueContext) (job_id token : String) (timestamp : ℕ) (d : ℤ) (fields : FailureFields)
        (fetch_next : Bool) (now : ℕ)
        → (move_to_delayed q job_id timestamp d token fields fetch_next now).read r
          ≡ err (finished_errors (negsuc n) (about job_id "moveToDelayed" (some "active")))
    unfolding move_to_delayed
    move_to_delayed_refused q job_id token timestamp d fields fetch_next now =
        rw (Refuses-code_or n r a)

  pub move_to_finished_accepted :
      (q : QueueContext) (p : FinishedParams) (r : Option (Reply Row))
      → Accepts r
      → (next : NextJob Row) × ((move_to_finished q p).read r ≡ ok next)
  unfolding move_to_finished
  move_to_finished_accepted q p none a = absurd a
  move_to_finished_accepted q p (some r) a = (record (next_of (some r)) { id = r.job_id }, rw a)

  pub move_to_finished_refused :
      (q : QueueContext) (p : FinishedParams) (n : ℕ) (r : Option (Reply Row))
      → Refuses n r
      → (move_to_finished q p).read r
        ≡ err (finished_errors (negsuc n) (about p.job_id "moveToFinished" (some "active")))
  unfolding move_to_finished
  move_to_finished_refused q p n none a = absurd a
  move_to_finished_refused q p n (some r) a = rw a
