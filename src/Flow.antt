-- ===== src/Flow.antt =====
-- `add`, `addNode` and `addChildren` of src/classes/flow-producer.ts. A job is its key, made of prefix,
-- queue and id, which no two nodes share; an empty prefix, and the rows of the queues, are left out.
-- The children of a node are added at the same time, so that their calls come in any order between
-- them, and a child goes on when another has failed.
pub mod Traces
pub mod Order
pub mod Atomic
pub mod Stores
pub mod Tests
use elephantmq.Base.Texts.{has}
use elephantmq.Base.{String, ok, some, [], ◌++◌, Bool, false, ◌∷◌, none, Option, true, List, ◌&&◌}

mutual
  pub data FlowJob : Type 0 where
    flow : String → FlowJobs → FlowJob

  pub data FlowJobs : Type 0 where
    no_more : FlowJobs
    more : FlowJob → FlowJobs → FlowJobs

-- The calls of the database, with the key of the job and that of its parent.
pub data Call : Type 0 where
  add_parent_job : String → Option String → Call
  add_job : String → Option String → Call
  link_child_to_parent : String → String → Call

-- A call that was made, that threw (or was not let through by the validation), or for which the
-- database answered with another job's id.
pub data Event : Type 0 where
  done : Call → Event
  failed : Call → Event
  matched : Call → Event

pub data Shuffle : List Event → List Event → List Event → Type 0 where
  neither : Shuffle [] [] []
  first : {xs ys zs : List Event} (e : Event) → Shuffle xs ys zs → Shuffle (e ∷ xs) ys (e ∷ zs)
  second : {xs ys zs : List Event} (e : Event) → Shuffle xs ys zs → Shuffle xs (e ∷ ys) (e ∷ zs)

-- The links of a parent to its children, one after the other, up to one that fails. A child is
-- linked under the id that was answered for it.
pub data Links (parent : String) : FlowJobs → List Event → Bool → Type 0 where
  all_linked : Links parent no_more [] true
  links :
      {n : FlowJob} {ns : FlowJobs} {t : List Event} {ok : Bool} (child : String)
      → Links parent ns t ok
      → Links parent (more n ns) (done (link_child_to_parent parent child) ∷ t) ok
  link_fails :
      {n : FlowJob} {ns : FlowJobs} (child : String)
      → Links parent (more n ns) (failed (link_child_to_parent parent child) ∷ []) false

-- All calls that `addNode` makes for a node under a parent, and whether it succeeds.
mutual
  pub data Adds : FlowJob → Option String → List Event → Bool → Type 0 where
    adds_leaf :
        (key : String) (parent : Option String)
        → Adds (flow key no_more) parent (done (add_job key parent) ∷ []) true
    matches_leaf :
        (key : String) (parent : Option String)
        → Adds (flow key no_more) parent (matched (add_job key parent) ∷ []) true
    fails_leaf :
        (key : String) (parent : Option String)
        → Adds (flow key no_more) parent (failed (add_job key parent) ∷ []) false
    -- The children of a job that was not stored under its own id are skipped.
    matches_parent :
        (key : String) (parent : Option String) (n : FlowJob) (ns : FlowJobs)
        → Adds (flow key (more n ns)) parent (matched (add_parent_job key parent) ∷ []) true
    fails_parent :
        (key : String) (parent : Option String) (n : FlowJob) (ns : FlowJobs)
        → Adds (flow key (more n ns)) parent (failed (add_parent_job key parent) ∷ []) false
    adds_children :
        {key : String} {parent : Option String} {n : FlowJob} {ns : FlowJobs} {t ls : List Event}
        {ok : Bool}
        → AddsAll (more n ns) key t true
        → Links key (more n ns) ls ok
        → Adds (flow key (more n ns)) parent (done (add_parent_job key parent) ∷ t ++ ls) ok
    fails_children :
        {key : String} {parent : Option String} {n : FlowJob} {ns : FlowJobs} {t : List Event}
        → AddsAll (more n ns) key t false
        → Adds (flow key (more n ns)) parent (done (add_parent_job key parent) ∷ t) false

  pub data AddsAll : FlowJobs → String → List Event → Bool → Type 0 where
    adds_none : (parent : String) → AddsAll no_more parent [] true
    adds_more :
        {n : FlowJob} {ns : FlowJobs} {parent : String} {t u v : List Event} {ok oks : Bool}
        → Adds n (some parent) t ok
        → AddsAll ns parent u oks
        → Shuffle t u v
        → AddsAll (more n ns) parent v (ok && oks)

-- The jobs that are stored, and whether the database takes what was done for possible: a job with a
-- parent is stored only if its parent is.
pub record Stored : Type 0 where
  pub jobs : List String
  pub possible : Bool

unfoldable pub has_parent : Option String → List String → Bool
unfolding has
has_parent none jobs = true
has_parent (some p) jobs = has p jobs

unfoldable pub store : String → Option String → Stored → Stored
unfolding has_parent
store key parent s = record {
  jobs = s.jobs ++ key ∷ [];
  possible = s.possible && has_parent parent s.jobs;
}

unfoldable pub happens : Event → Stored → Stored
unfolding store
happens (done (add_parent_job key parent)) s = store key parent s
happens (done (add_job key parent)) s = store key parent s
happens _ s = s

unfoldable pub happen : List Event → Stored → Stored
unfolding happens
happen [] s = s
happen (e ∷ t) s = happen t (happens e s)

-- A flow as the database sees it: `BEGIN`, the calls, and `COMMIT`; or `ROLLBACK` behind some of the
-- calls, while the others, of children that go on, come behind it.
pub data Ends (n : FlowJob) (parent : Option String) (s : Stored) : Stored → Bool → Type 0 where
  commits : {t : List Event} → Adds n parent t true → Ends n parent s (happen t s) true
  rolls_back :
      (e : Event) (t late : List Event)
      → Adds n parent (e ∷ t ++ late) false
      → Ends n parent s
          (happen late (record { jobs = s.jobs; possible = (happen (e ∷ t) s).possible }))
          false

-- The keys of a flow's jobs.
unfoldable mutual
  pub keys_of : FlowJob → List String
  keys_of (flow key ns) = key ∷ keys_of_all ns

  pub keys_of_all : FlowJobs → List String
  keys_of_all no_more = []
  keys_of_all (more n ns) = keys_of n ++ keys_of_all ns
