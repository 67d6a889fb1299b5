-- ===== src/ChildPool/Tests.antt =====
-- Runs of the class ChildPool of src/classes/child-pool.ts.
use elephantmq.Base.{false, none, String, ok, Option, ◌+◌, ℕ, true, ◌≤◌, ◌≡◌, some, refl}
use elephantmq.Base.Maps.{get, set}
use elephantmq.ChildPool.{
  at_pid, hand_out, no_children, finish_retain, or_none, begin_retain, ChildPool, get_free,
  set_free, kept, release, pop, assigned, dropped,
}
use elephantmq.ChildPool.Exclusive.{
  Reach-exclusive, Reach, then_step, finishes_retain, opens, releases,
}
use elephantmq.ChildPool.Places.{is_retained, is_under, is_child, places, count}
use elephantmq.ChildPool.Reuse.{release-begin_retain}

abbrev one_file : ℕ → String
one_file c = "processor.js"

abbrev pid_of : ℕ → Option ℕ
pid_of c = some (c + 100)

-- A child is started and released.
abbrev one_retained : ChildPool
one_retained = (finish_retain one_file pid_of 1 none false no_children).0

abbrev one_free : ChildPool
one_free = kept one_retained (release one_file pid_of 1 one_retained)

one_free-Reach : Reach one_file pid_of one_free
unfolding places finish_retain is_under at_pid is_child count get_free or_none assigned get
one_free-Reach =
    then_step (then_step opens (finishes_retain no_children 1 none false refl))
      (releases one_retained 1 refl)

Reach-exclusive_example :
    ((d : ℕ) → places one_file pid_of d one_free ≤ 1)
    × (is_retained one_file pid_of 1 one_free ≡ false)
    × (is_retained one_file pid_of 1 (begin_retain one_file pid_of "processor.js" one_free).0
        ≡ true)
unfolding begin_retain release finish_retain hand_out set_free get_free pop assigned dropped or_none
    set get
Reach-exclusive_example =
    Reach-exclusive one_file pid_of one_free "processor.js" 1 one_free-Reach refl

release-begin_retain_example :
    (r : ChildPool) × (release one_file pid_of 1 one_retained ≡ ok r)
    × ((begin_retain one_file pid_of "processor.js" r).1 ≡ ok (some 1))
    × ((f : String)
        → get_free f (begin_retain one_file pid_of "processor.js" r).0 ≡ get_free f one_retained)
release-begin_retain_example = release-begin_retain one_file pid_of 1 101 one_retained refl
