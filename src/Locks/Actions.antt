-- ===== src/Locks/Actions.antt =====
-- What every sequence of calls of the lock manager keeps (src/classes/lock-manager.ts).
use elephantmq.Base.{
  String, Bool, Option, ◌∷◌, arith, List, ℕ, ◌≡◌, refl, [], sym, ◌∙◌, if◌then◌else◌, subst, false,
  true, inl, Option-cases, ap, map, inr, some, str_eq, none, Bool-cases, ◌||◌,
}
use elephantmq.Locks.{
  emit, track_job, cancel_job, cancel_all, Tracked, LockManager, on_timer, untrack_job, start,
  report_failed, after_extension, close, lock_renewal_failed, jobs_to_extend, extend_locks,
  renewal_error, stamp_all, token_of, aborted,
}
use elephantmq.Base.Maps.{Unique, delete, delete-Unique, set, set-Unique}
use elephantmq.Locks.Renewal.{stamp_all-Unique}

-- The calls of the manager, and the firing of its timer.
pub data Action : Type 0 where
  starts : Action
  closes : Action
  tracks : String → String → ℕ → Bool → Action
  untracks : String → Action
  cancels : String → Action
  cancels_all : Action
  fires : (List String → List String → ℕ → Option (List String)) → ℕ → Action

abbrev pub perform : Action → LockManager → LockManager
perform starts m = start m
perform closes m = close m
perform (tracks job_id token ts create) m = (track_job m job_id token ts create).0
perform (untracks job_id) m = untrack_job m job_id
perform (cancels job_id) m = (cancel_job m job_id).0
perform cancels_all m = cancel_all m.tracked_jobs m
perform (fires call now) m = on_timer call now m

abbrev pub perform_all : List Action → LockManager → LockManager
perform_all [] m = m
perform_all (a ∷ rest) m = perform_all rest (perform a m)

-- The parts of the state that events do not touch.
abbrev SameState : LockManager → LockManager → Type 0
SameState m n = (n.closed ≡ m.closed) × (n.timer ≡ m.timer) × (n.tracked_jobs ≡ m.tracked_jobs)

cancel_job-SameState : (m : LockManager) (j : String) → SameState m (cancel_job m j).0
unfolding cancel_job
cancel_job-SameState m j = ground arith

cancel_all-SameState :
    (jobs : List (String × Tracked)) (m : LockManager) → SameState m (cancel_all jobs m)
unfolding cancel_all
cancel_all-SameState [] m = (refl, refl, refl)
cancel_all-SameState ((j, t) ∷ rest) m = elim (Option-cases t.controller) [
  | inl plain ↦ rw plain (cancel_all-SameState rest m)
  | inr (c, controlled) ↦ rw controlled (cancel_all-SameState rest (emit (aborted c) m))
]

report_failed-SameState : (js : List String) (m : LockManager) → SameState m (report_failed js m)
unfolding report_failed
report_failed-SameState [] m = (refl, refl, refl)
report_failed-SameState (j ∷ js) m =
    let told = emit (renewal_error j) m in
    let (c, t, k) = cancel_job-SameState told j in
    let (c', t', k') = report_failed-SameState js (cancel_job told j).0 in (c' ∙ c, t' ∙ t, k' ∙ k)

after_extension-SameState :
    (ids errored : List String) (m : LockManager) → SameState m (after_extension ids errored m)
unfolding after_extension
after_extension-SameState ids errored m =
    let r = report_failed-SameState errored (emit (lock_renewal_failed errored) m) in ground arith

extend_locks-SameState :
    (call : List String → List String → ℕ → Option (List String)) (ids : List String)
    (m : LockManager)
    → SameState m (extend_locks call ids m)
unfolding extend_locks
extend_locks-SameState call ids m =
    elim (Option-cases (call ids (map (token_of m.tracked_jobs) ids) m.opts.lock_duration)) [
      | inl throws ↦ rw (throws, extend_locks) (refl, refl, refl)
      | inr (errored, answers) ↦
          rw (answers, extend_locks) (after_extension-SameState ids errored m)
    ]

-- What the timer leaves: the stamps, and the timer armed unless the manager is closed.
pub on_timer_lem :
    (call : List String → List String → ℕ → Option (List String)) (now : ℕ) (m : LockManager)
    → ((on_timer call now m).closed ≡ m.closed)
      × ((on_timer call now m).timer ≡ (if m.closed then m.timer else true))
      × ((on_timer call now m).tracked_jobs ≡ stamp_all m.opts.lock_renew_time now m.tracked_jobs)
unfolding on_timer
on_timer_lem call now m =
    let stamped = record m { tracked_jobs = stamp_all m.opts.lock_renew_time now m.tracked_jobs } in
    let due = jobs_to_extend m.opts.lock_renew_time now m.tracked_jobs in
    let e = extend_locks-SameState call due stamped in ground arith

-- A closed manager: no timer, and nothing tracked.
abbrev pub IsClosed : LockManager → Type 0
IsClosed m = (m.closed ≡ true) × (m.timer ≡ false) × (m.tracked_jobs ≡ [])

perform-IsClosed : (a : Action) (m : LockManager) → IsClosed m → IsClosed (perform a m)
unfolding start close track_job untrack_job delete stamp_all
perform-IsClosed starts m c = ground arith
perform-IsClosed closes m c = ground arith
perform-IsClosed (tracks job_id token ts create) m c = ground arith
perform-IsClosed (untracks job_id) m (c, t, k) = (c, t, ap (delete job_id) k)
perform-IsClosed (cancels job_id) m c = let e = cancel_job-SameState m job_id in ground arith
perform-IsClosed cancels_all m c = let e = cancel_all-SameState m.tracked_jobs m in ground arith
perform-IsClosed (fires call now) m (c, t, k) =
    let (c', t', k') = on_timer_lem call now m in
    (c' ∙ c, t' ∙ ground arith, k' ∙ ap (stamp_all m.opts.lock_renew_time now) k)

-- Once a manager that was open is closed, and whatever is called afterwards and however often its
-- timer still fires, it stays closed, tracks nothing and arms no timer.
close-IsClosed :
    (m : LockManager) (rest : List Action)
    → m.closed ≡ false
    → IsClosed (perform_all rest (close m))
unfolding close
close-IsClosed m rest o = all rest (close m) (ground arith)
  where
    all : (rest : List Action) (m : LockManager) → IsClosed m → IsClosed (perform_all rest m)
    all [] m c = c
    all (a ∷ rest) m c = all rest (perform a m) (perform-IsClosed a m c)

pub perform-Unique :
    (a : Action) (m : LockManager) → Unique m.tracked_jobs → Unique (perform a m).tracked_jobs
unfolding start close track_job untrack_job
perform-Unique starts m u =
    let e : (start m).tracked_jobs ≡ m.tracked_jobs = ground arith in subst Unique (sym e) u
perform-Unique closes m u = elim (Bool-cases m.closed) [
  | inl already ↦
      let e : (close m).tracked_jobs ≡ m.tracked_jobs = ground arith in subst Unique (sym e) u
  | inr open_still ↦ let e : (close m).tracked_jobs ≡ [] = ground arith in subst Unique (sym e) tt
]
perform-Unique (tracks job_id token ts create) m u =
    let made = if create then some m.next_controller else none in
    let t : Tracked = record { token = token; ts = ts; controller = made } in
    elim (Bool-cases (m.closed || str_eq job_id "")) [
      | inl ignored ↦
          let e : (track_job m job_id token ts create).0.tracked_jobs ≡ m.tracked_jobs =
            ground arith in
          subst Unique (sym e) u
      | inr kept ↦
          let e : (track_job m job_id token ts create).0.tracked_jobs
              ≡ set job_id t m.tracked_jobs =
            ground arith in
          subst Unique (sym e) (set-Unique job_id t m.tracked_jobs u)
    ]
perform-Unique (untracks job_id) m u = delete-Unique job_id m.tracked_jobs u
perform-Unique (cancels job_id) m u = subst Unique (sym (cancel_job-SameState m job_id).2) u
perform-Unique cancels_all m u = subst Unique (sym (cancel_all-SameState m.tracked_jobs m).2) u
perform-Unique (fires call now) m u =
    subst Unique (sym (on_timer_lem call now m).2)
      (stamp_all-Unique m.opts.lock_renew_time now m.tracked_jobs u)

-- No call ever tracks a job twice.
perform_all-Unique :
    (acts : List Action) (m : LockManager)
    → Unique m.tracked_jobs
    → Unique (perform_all acts m).tracked_jobs
perform_all-Unique [] m u = u
perform_all-Unique (a ∷ acts) m u = perform_all-Unique acts (perform a m) (perform-Unique a m u)
