-- ===== src/Locks/Tests.antt =====
-- Runs of the lock manager of src/classes/lock-manager.ts.
use elephantmq.Base.{
  String, true, false, refl, none, List, [], ◌∷◌, ◌*◌, if◌then◌else◌, Option, ◌||◌, ◌+◌, ◌↔◌, ◌==◌,
  ◌≡◌, ℕ, ◌<◌, some,
}
use elephantmq.Base.Maps.{Unique, get}
use elephantmq.Locks.{LockManager, Tracked, on_timer, extend_locks, is_empty, mem}
use elephantmq.Locks.Actions.{Action, starts, tracks, fires}
use elephantmq.Locks.Timer.{on_timer-extends, stamped}

abbrev tracked : Tracked
tracked = record { token = "w:0"; ts = 100; controller = none }

abbrev jobs : List (String × Tracked)
jobs = ("1", tracked) ∷ ("2", record tracked { ts = 900 }) ∷ []

abbrev manager : LockManager
manager = record {
  opts = record { lock_renew_time = 1000; lock_duration = 2000 };
  tracked_jobs = jobs;
  closed = false;
  timer = true;
  next_controller = 1;
  events = [];
}

jobs-Unique : Unique jobs
unfolding get
jobs-Unique = (refl, (refl, tt))

abbrev late_calls : List Action
late_calls = starts ∷ tracks "3" "w:1" 5 true ∷ fires (λ ids tokens duration. none) 2000 ∷ []

-- A call that renews every lock.
abbrev renewing : List String → List String → ℕ → Option (List String)
renewing ids tokens duration = some []

on_timer-extends_example :
    (due : List String) × ((j : String)
      → (mem j due ≡ true) ↔ (
          (t : Tracked) × (get j manager.tracked_jobs ≡ some t)
          × (0 < t.ts)
          × (2 * t.ts + manager.opts.lock_renew_time < 2 * 1000)))
    × ((j : String)
        → get j (on_timer renewing 1000 manager).tracked_jobs ≡ elim (get j manager.tracked_jobs) [
          | none ↦ none
          | some t ↦ some (record t { ts = if mem j due || t.ts == 0 then 1000 else t.ts })
        ])
    × ((on_timer renewing 1000 manager).events
        ≡ (if is_empty due
            then manager
            else extend_locks renewing due (stamped renewing 1000 manager)).events)
on_timer-extends_example = on_timer-extends renewing 1000 manager jobs-Unique
