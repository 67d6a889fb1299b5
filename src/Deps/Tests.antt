-- ===== src/Deps/Tests.antt =====
-- Runs of loadDependenciesFromPg of src/classes/emq-job-deps.ts.
use elephantmq.Base.{List, ◌≡◌, none, some, suc, length, replicate, arith}
use elephantmq.Deps.Pages.{follow-all, follow}
use elephantmq.Deps.{Row, pending}

abbrev row : Row
row = record {
  status = pending;
  child_ref = some "emq:mail:1";
  return_value = none;
  failed_reason = none;
}

-- More rows than one answer holds.
abbrev rows : List Row
rows = replicate 73 row

follow-all_example : follow (suc (length rows)) 50 0 rows ≡ some rows
follow-all_example = follow-all 50 rows (omega arith)
