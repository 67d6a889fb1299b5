-- ===== src/Locks/Timer.antt =====
-- One firing of the timer of src/classes/lock-manager.ts: which locks it asks to extend, and the stamps
-- that it leaves.
use elephantmq.Base.Maps.{get, Unique}
use elephantmq.Base.{
  ◌↔◌, if◌then◌else◌, ◌||◌, ◌+◌, Bool, none, String, ℕ, ◌∙◌, ◌<◌, some, ◌≡◌, refl, ◌==◌, true, List,
  ap, Option, ◌*◌, false, inr, Bool-cases, inl, arith,
}
use elephantmq.Locks.{
  is_empty, Tracked, LockManager, stamp_all, needs_extension, extend_locks, on_timer,
  jobs_to_extend, stamp, mem, is_due,
}
use elephantmq.Locks.Renewal.{is_extended, mem-jobs_to_extend, jobs_to_extend_iff, get-stamp_all}
use elephantmq.Locks.Actions.{on_timer_lem}

module _ (call : List String → List String → ℕ → Option (List String)) (now : ℕ)
    (m : LockManager) where
  -- The manager as it is when locks are extended.
  abbrev pub stamped : LockManager
  stamped = record m { tracked_jobs = stamp_all m.opts.lock_renew_time now m.tracked_jobs }

  armed-events :
      (x : LockManager) → (if x.closed then x else record x { timer = true }).events ≡ x.events
  armed-events x = ground arith

  same-events :
      (b : Bool) (x : LockManager) → (if b then stamped else x).events ≡ (if b then m else x).events
  same-events true x = refl
  same-events false x = refl

  on_timer-events :
      (on_timer call now m).events
      ≡ (if is_empty (jobs_to_extend m.opts.lock_renew_time now m.tracked_jobs)
          then stamped
          else extend_locks call
              (jobs_to_extend m.opts.lock_renew_time now m.tracked_jobs)
              stamped).events
  unfolding on_timer
  on_timer-events = armed-events (
      if is_empty (jobs_to_extend m.opts.lock_renew_time now m.tracked_jobs)
      then stamped
      else extend_locks call (jobs_to_extend m.opts.lock_renew_time now m.tracked_jobs) stamped)

  stamp-due :
      (o : Option Tracked) (due : Bool)
      → due ≡ is_extended m.opts.lock_renew_time now o
      → elim o [ none ↦ none | some t ↦ some (stamp m.opts.lock_renew_time now t) ] ≡ elim o [
        | none ↦ none
        | some t ↦ some (record t { ts = if due || t.ts == 0 then now else t.ts })
      ]
  unfolding stamp needs_extension
  stamp-due none due e = refl
  stamp-due (some t) due e = elim (Bool-cases (t.ts == 0)) [
    | inl z ↦ elim (Bool-cases due) [
      | inl d ↦ rw (stamp, z, d) refl
      | inr d ↦ rw (stamp, z, d) refl
    ]
    | inr z ↦ elim (Bool-cases (is_due m.opts.lock_renew_time t.ts now)) [
      | inl i ↦ let d : due ≡ true = e ∙ rw (needs_extension, z, i) refl in rw (stamp, z, i, d) refl
      | inr i ↦
          let d : due ≡ false = e ∙ rw (needs_extension, z, i) refl in rw (stamp, z, i, d) refl
    ]
  ]

  -- Where each job is tracked once, a firing asks for the extension of the locks of exactly the jobs whose
  -- stamp is set and lies more than half the renew time back, with one call unless there are none. It
  -- stamps these, and those without a stamp, with the time now, and leaves the others.
  pub on_timer-extends :
      Unique m.tracked_jobs
      → (due : List String) × ((j : String)
          → (mem j due ≡ true) ↔ (
              (t : Tracked) × (get j m.tracked_jobs ≡ some t)
              × (0 < t.ts)
              × (2 * t.ts + m.opts.lock_renew_time < 2 * now)))
        × ((j : String)
            → get j (on_timer call now m).tracked_jobs ≡ elim (get j m.tracked_jobs) [
              | none ↦ none
              | some t ↦ some (record t { ts = if mem j due || t.ts == 0 then now else t.ts })
            ])
        × ((on_timer call now m).events
            ≡ (if is_empty due then m else extend_locks call due stamped).events)
  on_timer-extends u =
      let renew = m.opts.lock_renew_time in
      let due = jobs_to_extend renew now m.tracked_jobs in
      (
        due,
        λ j. jobs_to_extend_iff renew now j m.tracked_jobs u,
        λ j.
            ap (get j) (on_timer_lem call now m).2
            ∙ get-stamp_all renew now j m.tracked_jobs
            ∙ stamp-due (get j m.tracked_jobs) (mem j due)
                (mem-jobs_to_extend renew now j m.tracked_jobs u),
        on_timer-events ∙ same-events (is_empty due) (extend_locks call due stamped),
      )
