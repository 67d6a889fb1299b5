-- ===== src/Flow/Stores.antt =====
-- What a flow that succeeds stores (src/classes/flow-producer.ts).
use elephantmq.Base.Texts.{has, has-append_one}
use elephantmq.Base.{
  ◌∙◌, List, false, arith, ◌||◌, String, ◌∷◌, [], ap, str_eq, ◌++◌, Option, Bool, refl, true, All,
  ◌≡◌, sym, ◌&&◌, All-front,
}
use elephantmq.Flow.{
  FlowJobs, Shuffle, has_parent, Links, add_parent_job, FlowJob, keys_of, all_linked, add_job,
  link_fails, Stored, link_child_to_parent, Event, happen, matched, done, first, links, happens,
  store, failed, second, neither, matches_parent, fails_leaf, adds_more, fails_children, AddsAll,
  adds_none, fails_parent, adds_children, keys_of_all, matches_leaf, Adds, adds_leaf,
}
use elephantmq.Flow.Traces.{has-append}
use elephantmq.Flow.Order.{happen-possible, Adds-Ordered}

-- No call was answered with the id of another job.
abbrev pub IsUnmatched : Event → Type 0
IsUnmatched (matched c) = ⊥
IsUnmatched _ = Unit {0}

-- The jobs that events add.
abbrev added : List Event → List String
added [] = []
added (done (add_parent_job key p) ∷ t) = key ∷ added t
added (done (add_job key p) ∷ t) = key ∷ added t
added (done (link_child_to_parent p c) ∷ t) = added t
added (failed c ∷ t) = added t
added (matched c ∷ t) = added t

happen-jobs :
    (c : String) (t : List Event) (s : Stored)
    → has c (happen t s).jobs ≡ (has c s.jobs || has c (added t))
unfolding happen happens store has
happen-jobs c [] s = ground arith
happen-jobs c (done (add_parent_job key p) ∷ t) s =
    happen-jobs c t _ ∙ ap (λ b. b || has c (added t)) (has-append_one c key s.jobs) ∙ ground arith
happen-jobs c (done (add_job key p) ∷ t) s =
    happen-jobs c t _ ∙ ap (λ b. b || has c (added t)) (has-append_one c key s.jobs) ∙ ground arith
happen-jobs c (done (link_child_to_parent p d) ∷ t) s = happen-jobs c t s
happen-jobs c (failed d ∷ t) s = happen-jobs c t s
happen-jobs c (matched d ∷ t) s = happen-jobs c t s

added_by : String → Event → Bool
added_by c (done (add_parent_job key p)) = str_eq key c
added_by c (done (add_job key p)) = str_eq key c
added_by c _ = false

has-added :
    (c : String) (e : Event) (t : List Event)
    → has c (added (e ∷ t)) ≡ (added_by c e || has c (added t))
unfolding has added_by
has-added c (done (add_parent_job key p)) t = refl
has-added c (done (add_job key p)) t = refl
has-added c (done (link_child_to_parent p d)) t = refl
has-added c (failed d) t = refl
has-added c (matched d) t = refl

added-Shuffle :
    (c : String) {t u v : List Event}
    → Shuffle t u v
    → has c (added v) ≡ (has c (added t) || has c (added u))
unfolding has
added-Shuffle c neither = refl
added-Shuffle c (first {xs} {ys} {zs} e s) =
    rw (has-added c e zs, has-added c e xs, added-Shuffle c s) (ground arith)
added-Shuffle c (second {xs} {ys} {zs} e s) =
    rw (has-added c e zs, has-added c e ys, added-Shuffle c s) (ground arith)

added-append :
    (c : String) (t u : List Event) → has c (added (t ++ u)) ≡ (has c (added t) || has c (added u))
unfolding has
added-append c [] u = refl
added-append c (e ∷ t) u =
    rw (has-added c e (t ++ u), has-added c e t, added-append c t u) (ground arith)

added-Links :
    (c : String) {p : String} {ns : FlowJobs} {t : List Event} {ok : Bool}
    → Links p ns t ok
    → has c (added t) ≡ false
unfolding has
added-Links c all_linked = refl
added-Links c (links d l) = added-Links c l
added-Links c (link_fails d) = refl

All-Unshuffle {κ} :
    (P : Event → Type κ) {t u v : List Event} → Shuffle t u v → All P v → All P t × All P u
All-Unshuffle P neither a = (tt, tt)
All-Unshuffle P (first e s) a = let rest = All-Unshuffle P s a.1 in ((a.0, rest.0), rest.1)
All-Unshuffle P (second e s) a = let rest = All-Unshuffle P s a.1 in (rest.0, (a.0, rest.1))

ends_left : (a b : Bool) → (a && b) ≡ true → a ≡ true
ends_left true b e = refl
ends_left false b e = cc

ends_right : (a b : Bool) → (a && b) ≡ true → b ≡ true
ends_right true b e = e
ends_right false b e = cc

mutual
  unfolding has keys_of

  Adds-added :
      (c : String) {n : FlowJob} {parent : Option String} {t : List Event} {ok : Bool}
      → Adds n parent t ok
      → ok ≡ true
      → All IsUnmatched t
      → has c (added t) ≡ has c (keys_of n)
  Adds-added c (adds_leaf key parent) e u = refl
  Adds-added c (matches_leaf key parent) e u = absurd u.0
  Adds-added c (fails_leaf key parent) e u = cc
  Adds-added c (matches_parent key parent n ns) e u = absurd u.0
  Adds-added c (fails_parent key parent n ns) e u = cc
  Adds-added c (adds_children {key = k} {t = t} {ls = ls} a l) e u =
      ap (λ b. str_eq k c || b)
        (added-append c t ls
          ∙ rw (AddsAll-added c a refl (All-front IsUnmatched t ls u.1), added-Links c l)
              (ground arith))
  Adds-added c (fails_children a) e u = cc

  AddsAll-added :
      (c : String) {ns : FlowJobs} {parent : String} {t : List Event} {ok : Bool}
      → AddsAll ns parent t ok
      → ok ≡ true
      → All IsUnmatched t
      → has c (added t) ≡ has c (keys_of_all ns)
  AddsAll-added c (adds_none p) e u = refl
  AddsAll-added c (adds_more {n = n} {ns = ns} {ok = x} {oks = y} a b s) e u =
      let each = All-Unshuffle IsUnmatched s u in
      added-Shuffle c s
      ∙ rw (Adds-added c a (ends_left x y e) each.0, AddsAll-added c b (ends_right x y e) each.1)
          (sym (has-append c (keys_of n) (keys_of_all ns)))

-- Where a flow succeeds, the parent that it is added under is stored, and no call is answered with
-- another job's id, then each job is stored behind its parent, in whichever order the calls of the
-- nodes came, and stored are the jobs of before and those of the flow.
pub add-stores :
    {n : FlowJob} {parent : Option String} {t : List Event} (s : Stored)
    → Adds n parent t true
    → All IsUnmatched t
    → has_parent parent s.jobs ≡ true
    → s.possible ≡ true
    → ((happen t s).possible ≡ true)
      × ((c : String) → has c (happen t s).jobs ≡ (has c s.jobs || has c (keys_of n)))
add-stores {n} {parent} {t} s a u h p = (
  happen-possible s.jobs t s (λ c i. i) (Adds-Ordered a s.jobs h) p,
  λ c. happen-jobs c t s ∙ ap (λ b. has c s.jobs || b) (Adds-added c a refl u),
)
