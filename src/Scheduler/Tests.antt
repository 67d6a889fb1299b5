-- ===== src/Scheduler/Tests.antt =====
-- Runs of the functions of src/classes/job-scheduler.ts.
use elephantmq.Base.{some, none, false}
use elephantmq.Scheduler.{RepeatOptions, Slot, Stored}

abbrev every_ten : RepeatOptions
every_ten = record {
  pattern = none;
  every = 10;
  limit = none;
  offset = none;
  count = 0;
  immediately = false;
  start_date = none;
  end_date = none;
}

abbrev stored : Stored
stored = record { offset = none; every = some 10; next_millis = some 5 }

abbrev slot : Slot
slot = record { next_millis = 110; new_offset = some 0; iteration = 1 }
