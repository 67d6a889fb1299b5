-- ===== src/Flow/Tests.antt =====
-- Runs of `add` of src/classes/flow-producer.ts.
use elephantmq.Base.Texts.{has}
use elephantmq.Base.{refl, String, some, none, false, true, Option, List, ◌||◌, [], ◌≡◌, ◌∷◌}
use elephantmq.Flow.{
  adds_leaf, no_more, all_linked, has_parent, fails_children, rolls_back, add_job, adds_children,
  FlowJob, fails_leaf, Event, adds_none, Stored, link_child_to_parent, keys_of, Adds,
  add_parent_job, adds_more, flow, done, happen, first, more, failed, happens, neither, store,
  links, second,
}
use elephantmq.Flow.Stores.{add-stores}
use elephantmq.Flow.Atomic.{add-atomic}

-- A job with two children, of which the second has a child of its own.
abbrev last_child : FlowJob
last_child = flow "emq:q:c" (more (flow "emq:q:d" no_more) no_more)

abbrev tree : FlowJob
tree = flow "emq:q:a" (more (flow "emq:q:b" no_more) (more last_child no_more))

abbrev under : String → Option String
under key = some key

-- The first child fails, and the other one goes on behind the rollback, where its child is refused.
last_child-fails :
    Adds last_child
      (under "emq:q:a")
      (done (add_parent_job "emq:q:c" (under "emq:q:a"))
        ∷ failed (add_job "emq:q:d" (under "emq:q:c"))
        ∷ [])
      false
last_child-fails = fails_children (
    adds_more (fails_leaf "emq:q:d" (under "emq:q:c")) (adds_none "emq:q:c")
      (first (failed (add_job "emq:q:d" (under "emq:q:c"))) neither))

tree-fails :
    Adds tree none
      (done (add_parent_job "emq:q:a" none)
        ∷ done (add_parent_job "emq:q:c" (under "emq:q:a"))
        ∷ failed (add_job "emq:q:b" (under "emq:q:a"))
        ∷ failed (add_job "emq:q:d" (under "emq:q:c"))
        ∷ [])
      false
tree-fails = fails_children (
    adds_more (fails_leaf "emq:q:b" (under "emq:q:a"))
      (adds_more last_child-fails (adds_none "emq:q:a") (
        first (done (add_parent_job "emq:q:c" (under "emq:q:a")))
          (first (failed (add_job "emq:q:d" (under "emq:q:c"))) neither)))
      (second (done (add_parent_job "emq:q:c" (under "emq:q:a"))) (
        first (failed (add_job "emq:q:b" (under "emq:q:a")))
          (second (failed (add_job "emq:q:d" (under "emq:q:c"))) neither))))

abbrev no_jobs : Stored
no_jobs = record { jobs = []; possible = true }

tree-new : (c : String) → has c (keys_of tree) ≡ true → has c no_jobs.jobs ≡ false
unfolding has
tree-new c h = refl

abbrev two_jobs : Stored
two_jobs = record { jobs = "emq:q:y" ∷ "emq:q:z" ∷ []; possible = true }

add-atomic_example :
    (happen (failed (add_job "emq:q:d" (under "emq:q:c")) ∷ []) (record {
      jobs = no_jobs.jobs;
      possible =
          (happen
            (done (add_parent_job "emq:q:a" none)
              ∷ done (add_parent_job "emq:q:c" (under "emq:q:a"))
              ∷ failed (add_job "emq:q:b" (under "emq:q:a"))
              ∷ [])
            no_jobs).possible;
    })).jobs
    ≡ no_jobs.jobs
unfolding happen happens store has_parent has
add-atomic_example =
    add-atomic {s = no_jobs}
      (rolls_back (done (add_parent_job "emq:q:a" none))
        (done (add_parent_job "emq:q:c" (under "emq:q:a"))
          ∷ failed (add_job "emq:q:b" (under "emq:q:a"))
          ∷ [])
        (failed (add_job "emq:q:d" (under "emq:q:c")) ∷ []) tree-fails)
      tree-new refl

-- The child is stored behind its parent, and linked to it.
abbrev child_added : List Event
child_added =
    done (add_parent_job "emq:q:c" (under "emq:q:y"))
    ∷ done (add_job "emq:q:d" (under "emq:q:c"))
    ∷ done (link_child_to_parent "emq:q:c" "emq:q:d")
    ∷ []

child_added-Adds : Adds last_child (under "emq:q:y") child_added true
child_added-Adds =
    adds_children
      (adds_more (adds_leaf "emq:q:d" (under "emq:q:c")) (adds_none "emq:q:c")
        (first (done (add_job "emq:q:d" (under "emq:q:c"))) neither))
      (links "emq:q:d" all_linked)

add-stores_example :
    ((happen child_added two_jobs).possible ≡ true)
    × ((c : String)
        → has c (happen child_added two_jobs).jobs
          ≡ (has c two_jobs.jobs || has c (keys_of last_child)))
unfolding has_parent has
add-stores_example = add-stores two_jobs child_added-Adds (tt, (tt, (tt, tt))) refl refl
