-- ===== src/Flow/Order.antt =====
-- A flow's jobs are stored behind their parents (src/classes/flow-producer.ts).
use elephantmq.Base.Texts.{has, has-append_one}
use elephantmq.Base.{
  Option, [], ◌∷◌, String, some, Bool, ◌≡◌, true, none, ◌∙◌, List, ◌++◌, refl, arith,
}
use elephantmq.Flow.{
  all_linked, FlowJobs, Links, Shuffle, adds_children, matches_parent, add_parent_job,
  fails_children, Event, Stored, fails_leaf, link_fails, FlowJob, add_job, matches_leaf,
  link_child_to_parent, adds_none, adds_more, Adds, adds_leaf, fails_parent, AddsAll, has_parent,
  done, first, links, happen, failed, second, happens, matched, store, neither,
}
use elephantmq.Flow.Traces.{has-there, Within, has-here}

-- The jobs that stand in the database behind an event, of those that stand before it.
abbrev pub behind : Event → List String → List String
behind (done (add_parent_job key p)) jobs = key ∷ jobs
behind (done (add_job key p)) jobs = key ∷ jobs
behind _ jobs = jobs

abbrev pub has_its_parent : List String → Event → Bool
has_its_parent jobs (done (add_parent_job key p)) = has_parent p jobs
has_its_parent jobs (done (add_job key p)) = has_parent p jobs
has_its_parent jobs _ = true

-- Each job that is stored has its parent before it.
abbrev pub Ordered : List String → List Event → Type 0
Ordered jobs [] = Unit {0}
Ordered jobs (e ∷ t) = (has_its_parent jobs e ≡ true) × Ordered (behind e jobs) t

has_parent-Within :
    (js ks : List String) (p : Option String)
    → Within js ks
    → has_parent p js ≡ true
    → has_parent p ks ≡ true
unfolding has_parent
has_parent-Within js ks none w h = refl
has_parent-Within js ks (some p) w h = w p h

Within-more : (c : String) (js ks : List String) → Within js ks → Within (c ∷ js) (c ∷ ks)
unfolding has
Within-more c js ks w d h = ground (arith, h, w d)

Within-one : (c : String) (js : List String) → Within js (c ∷ js)
Within-one c js d h = has-there d c js h

has_its_parent-Within :
    (js ks : List String) (e : Event)
    → Within js ks
    → has_its_parent js e ≡ true
    → has_its_parent ks e ≡ true
has_its_parent-Within js ks (done (add_parent_job key p)) w h = has_parent-Within js ks p w h
has_its_parent-Within js ks (done (add_job key p)) w h = has_parent-Within js ks p w h
has_its_parent-Within js ks (done (link_child_to_parent p c)) w h = refl
has_its_parent-Within js ks (failed c) w h = refl
has_its_parent-Within js ks (matched c) w h = refl

behind-Within :
    (js ks : List String) (e : Event) → Within js ks → Within (behind e js) (behind e ks)
behind-Within js ks (done (add_parent_job key p)) w = Within-more key js ks w
behind-Within js ks (done (add_job key p)) w = Within-more key js ks w
behind-Within js ks (done (link_child_to_parent p c)) w = w
behind-Within js ks (failed c) w = w
behind-Within js ks (matched c) w = w

Within-behind : (js : List String) (e : Event) → Within js (behind e js)
Within-behind js (done (add_parent_job key p)) = Within-one key js
Within-behind js (done (add_job key p)) = Within-one key js
Within-behind js (done (link_child_to_parent p c)) = λ d h. h
Within-behind js (failed c) = λ d h. h
Within-behind js (matched c) = λ d h. h

Ordered-Within : (js ks : List String) (t : List Event) → Within js ks → Ordered js t → Ordered ks t
Ordered-Within js ks [] w o = tt
Ordered-Within js ks (e ∷ t) w o = (
  has_its_parent-Within js ks e w o.0,
  Ordered-Within (behind e js) (behind e ks) t (behind-Within js ks e w) o.1,
)

Ordered-Shuffle :
    {t u v : List Event}
    → Shuffle t u v
    → (js : List String) → Ordered js t
    → Ordered js u
    → Ordered js v
Ordered-Shuffle neither js a b = tt
Ordered-Shuffle (first e s) js a b = (
  a.0,
  Ordered-Shuffle s (behind e js) a.1 (Ordered-Within js (behind e js) _ (Within-behind js e) b),
)
Ordered-Shuffle (second e s) js a b = (
  b.0,
  Ordered-Shuffle s (behind e js) (Ordered-Within js (behind e js) _ (Within-behind js e) a) b.1,
)

Ordered-append :
    (js : List String) (t u : List Event)
    → Ordered js t
    → ((ks : List String) → Ordered ks u)
    → Ordered js (t ++ u)
Ordered-append js [] u a b = b js
Ordered-append js (e ∷ t) u a b = (a.0, Ordered-append (behind e js) t u a.1 b)

Links-Ordered :
    {p : String} {ns : FlowJobs} {t : List Event} {ok : Bool}
    → Links p ns t ok
    → (js : List String) → Ordered js t
Links-Ordered all_linked js = tt
Links-Ordered (links c l) js = (refl, Links-Ordered l js)
Links-Ordered (link_fails c) js = (refl, tt)

mutual
  unfolding has_parent

  pub Adds-Ordered :
      {n : FlowJob} {parent : Option String} {t : List Event} {ok : Bool}
      → Adds n parent t ok
      → (js : List String) → has_parent parent js ≡ true
      → Ordered js t
  Adds-Ordered (adds_leaf key parent) js h = (h, tt)
  Adds-Ordered (matches_leaf key parent) js h = (refl, tt)
  Adds-Ordered (fails_leaf key parent) js h = (refl, tt)
  Adds-Ordered (matches_parent key parent n ns) js h = (refl, tt)
  Adds-Ordered (fails_parent key parent n ns) js h = (refl, tt)
  Adds-Ordered (adds_children {key = k} a l) js h = (
    h,
    Ordered-append (k ∷ js) _ _ (AddsAll-Ordered a (k ∷ js) (has-here k js)) (Links-Ordered l),
  )
  Adds-Ordered (fails_children {key = k} a) js h = (h, AddsAll-Ordered a (k ∷ js) (has-here k js))

  AddsAll-Ordered :
      {ns : FlowJobs} {parent : String} {t : List Event} {ok : Bool}
      → AddsAll ns parent t ok
      → (js : List String) → has parent js ≡ true
      → Ordered js t
  AddsAll-Ordered (adds_none p) js h = tt
  AddsAll-Ordered (adds_more a b s) js h =
      Ordered-Shuffle s js (Adds-Ordered a js h) (AddsAll-Ordered b js h)

stored-Within :
    (key : String) (js jobs : List String) → Within js jobs → Within (key ∷ js) (jobs ++ key ∷ [])
unfolding has
stored-Within key js jobs w d h = has-append_one d key jobs ∙ ground (arith, h, w d)

-- What is stored by events is possible for the database where they come in this order.
pub happen-possible :
    (js : List String) (t : List Event) (s : Stored)
    → Within js s.jobs
    → Ordered js t
    → s.possible ≡ true
    → (happen t s).possible ≡ true
unfolding happen happens store
happen-possible js [] s w o p = p
happen-possible js (done (add_parent_job key par) ∷ t) s w o p =
    happen-possible (key ∷ js) t _ (stored-Within key js s.jobs w) o.1
      (rw (p, has_parent-Within js s.jobs par w o.0) refl)
happen-possible js (done (add_job key par) ∷ t) s w o p =
    happen-possible (key ∷ js) t _ (stored-Within key js s.jobs w) o.1
      (rw (p, has_parent-Within js s.jobs par w o.0) refl)
happen-possible js (done (link_child_to_parent a c) ∷ t) s w o p = happen-possible js t s w o.1 p
happen-possible js (failed c ∷ t) s w o p = happen-possible js t s w o.1 p
happen-possible js (matched c ∷ t) s w o p = happen-possible js t s w o.1 p
