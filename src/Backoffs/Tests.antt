-- ===== src/Backoffs/Tests.antt =====
-- Runs of src/classes/backoffs.ts.
use elephantmq.Base.{ℕ, ◌≡◌, refl, arith, some, none, ok, ◌*◌, ◌^◌, ◌-◌}
use elephantmq.Backoffs.{Fraction, BackoffOptions, Value, calculate, jitter_or_zero}
use elephantmq.Backoffs.Bounds.{Within, calculate-exponential}

abbrev half : Fraction
half = record { num = 1; den = 2 }

abbrev fixed_backoff : BackoffOptions
fixed_backoff = record { kind = "fixed"; delay = some 1000; jitter = some half }

abbrev exponential_backoff : BackoffOptions
exponential_backoff = record { kind = "exponential"; delay = some 1000; jitter = some half }

calculate-exponential_example :
    (v : Value) × (calculate {Err = ℕ} {Job = ℕ} half (some exponential_backoff) 3 3 4 none ≡ ok v)
    × Within (jitter_or_zero exponential_backoff.jitter) (2 ^ (3 - 1) * 1000) v
calculate-exponential_example =
    calculate-exponential {Err = ℕ} {Job = ℕ} half exponential_backoff none 1000 3 3 4 (omega arith)
      (omega arith, omega arith) refl refl (omega arith)
