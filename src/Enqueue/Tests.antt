-- ===== src/Enqueue/Tests.antt =====
-- Runs of validateEnqueueJobOptions of src/classes/job/job-enqueue-validation.ts.
use elephantmq.Base.{leb, ◌∷◌, none, ◌&&◌, Bool, [], some, true, false}
use elephantmq.Base.Int.{pos}
use elephantmq.Enqueue.{EnqueueOptions, whole}
use elephantmq.Keys.{Text, codes}

-- An id that is one digit reads as an integer; others are taken not to.
abbrev one_digit : Text → Bool
one_digit (c ∷ []) = leb b'0' c && leb c b'9'
one_digit _ = false

abbrev options : EnqueueOptions
options = record {
  size_limit = 10;
  delay = 5;
  repeat_count = none;
  remove_dependency_on_failure = false;
  fail_parent_on_failure = true;
  continue_parent_on_failure = false;
  ignore_dependency_on_failure = false;
  job_id = codes "a:b:c";
  priority = some (whole (pos 3));
  deduplication = some (codes "d");
  jitter = some (record { num = pos 1; den = 2 });
}

abbrev no_key : Text
no_key = []
