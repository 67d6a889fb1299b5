-- ===== src/Flow/Atomic.antt =====
-- A flow is added as a whole or not at all (`add` of src/classes/flow-producer.ts).
use elephantmq.Base.Texts.{has}
use elephantmq.Base.{
  List, Bool-cases, false, arith, some, String, inr, ◌∷◌, [], none, Option, refl, inl, true, All,
  ◌≡◌, All-back,
}
use elephantmq.Flow.{
  has_parent, add_parent_job, FlowJob, keys_of, add_job, Stored, rolls_back, link_child_to_parent,
  Ends, Event, happen, matched, done, happens, store, failed,
}
use elephantmq.Flow.Traces.{Adds-rest, IsUnder}

-- What was once impossible stays so.
possible_before : (t : List Event) (s : Stored) → (happen t s).possible ≡ true → s.possible ≡ true
unfolding happen happens store
possible_before [] s h = h
possible_before (done (add_parent_job key p) ∷ t) s h = ground (arith, possible_before t _ h)
possible_before (done (add_job key p) ∷ t) s h = ground (arith, possible_before t _ h)
possible_before (done (link_child_to_parent p c) ∷ t) s h = possible_before t s h
possible_before (failed c ∷ t) s h = possible_before t s h
possible_before (matched c ∷ t) s h = possible_before t s h

module _ (keys : List String) where
  -- None of some jobs is stored.
  abbrev AreNew : List String → Type 0
  AreNew jobs = (c : String) → has c keys ≡ true → has c jobs ≡ false

  refused :
      (key : String) (p : Option String) (t : List Event) (s : Stored)
      → has_parent p s.jobs ≡ false
      → (happen t (store key p s)).possible ≡ false
  unfolding store
  refused key p t s h = elim (Bool-cases (happen t (store key p s)).possible) [
    | inl e ↦ absurd (ground (arith, possible_before t (store key p s) e, h))
    | inr e ↦ e
  ]

  late_nothing :
      (t : List Event) (s : Stored)
      → All (IsUnder keys) t
      → AreNew s.jobs
      → (happen t s).possible ≡ true
      → (happen t s).jobs ≡ s.jobs
  unfolding happen happens has_parent
  late_nothing [] s u n h = refl
  late_nothing (done (add_parent_job key none) ∷ t) s u n h = absurd u.0
  late_nothing (done (add_parent_job key (some p)) ∷ t) s u n h =
      absurd (cc (h, refused key (some p) t s (n p u.0)))
  late_nothing (done (add_job key none) ∷ t) s u n h = absurd u.0
  late_nothing (done (add_job key (some p)) ∷ t) s u n h =
      absurd (cc (h, refused key (some p) t s (n p u.0)))
  late_nothing (done (link_child_to_parent p c) ∷ t) s u n h = late_nothing t s u.1 n h
  late_nothing (failed c ∷ t) s u n h = late_nothing t s u.1 n h
  late_nothing (matched c ∷ t) s u n h = late_nothing t s u.1 n h

-- Where no job of a flow is stored before, and the database takes no job whose parent is not stored,
-- a flow that fails leaves the jobs as they were, in whichever order the calls of its nodes came, and
-- however many of them came behind the rollback.
pub add-atomic :
    {n : FlowJob} {parent : Option String} {s r : Stored}
    → Ends n parent s r false
    → ((c : String) → has c (keys_of n) ≡ true → has c s.jobs ≡ false)
    → r.possible ≡ true
    → r.jobs ≡ s.jobs
add-atomic {n = n} {s = s} (rolls_back e t late a) new h =
    late_nothing (keys_of n) late _ (All-back (IsUnder (keys_of n)) t late (Adds-rest a)) new h
