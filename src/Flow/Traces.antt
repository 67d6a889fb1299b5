-- ===== src/Flow/Traces.antt =====
-- The calls that a flow makes (src/classes/flow-producer.ts), in whichever order they come.
use elephantmq.Base.Texts.{has}
use elephantmq.Base.{
  some, Option, List, [], none, arith, ◌||◌, ◌++◌, eq_refl, String, true, ◌∙◌, All, Bool, ◌≡◌, ◌∷◌,
  refl, All-append,
}
use elephantmq.Flow.{
  adds_leaf, Shuffle, adds_none, add_job, Event, add_parent_job, adds_more, fails_leaf, AddsAll,
  adds_children, keys_of_all, matches_parent, Adds, fails_parent, keys_of, FlowJob, fails_children,
  link_fails, Links, all_linked, matches_leaf, FlowJobs, first, done, links, flow, second, more,
  neither,
}

pub All-Shuffle {κ} :
    (P : Event → Type κ) {t u v : List Event} → Shuffle t u v → All P t → All P u → All P v
All-Shuffle P neither a b = tt
All-Shuffle P (first e s) a b = (a.0, All-Shuffle P s a.1 b)
All-Shuffle P (second e s) a b = (b.0, All-Shuffle P s a b.1)

-- A job that is added has a parent among some jobs.
abbrev pub IsUnder : List String → Event → Type 0
IsUnder keys (done (add_parent_job key none)) = ⊥
IsUnder keys (done (add_parent_job key (some p))) = has p keys ≡ true
IsUnder keys (done (add_job key none)) = ⊥
IsUnder keys (done (add_job key (some p))) = has p keys ≡ true
IsUnder keys _ = Unit {0}

pub Links-IsUnder :
    (keys : List String) {p : String} {ns : FlowJobs} {t : List Event} {ok : Bool}
    → Links p ns t ok
    → All (IsUnder keys) t
Links-IsUnder keys all_linked = tt
Links-IsUnder keys (links c l) = (tt, Links-IsUnder keys l)
Links-IsUnder keys (link_fails c) = (tt, tt)

abbrev pub Within : List String → List String → Type 0
Within ks keys = (c : String) → has c ks ≡ true → has c keys ≡ true

pub has-append : (c : String) (xs ys : List String) → has c (xs ++ ys) ≡ (has c xs || has c ys)
unfolding has
has-append c [] ys = refl
has-append c (x ∷ xs) ys = rw (has-append c xs ys) (ground arith)

pub has-here : (c : String) (xs : List String) → has c (c ∷ xs) ≡ true
unfolding has
has-here c xs = rw (eq_refl c) refl

pub has-there : (c x : String) (xs : List String) → has c xs ≡ true → has c (x ∷ xs) ≡ true
unfolding has
has-there c x xs h = ground (arith, h)

mutual
  unfolding keys_of

  Adds-IsUnder :
      (keys : List String) {n : FlowJob} {p : String} {t : List Event} {ok : Bool}
      → Adds n (some p) t ok
      → has p keys ≡ true
      → Within (keys_of n) keys
      → All (IsUnder keys) t
  Adds-IsUnder keys (adds_leaf key parent) h w = (h, tt)
  Adds-IsUnder keys (matches_leaf key parent) h w = (tt, tt)
  Adds-IsUnder keys (fails_leaf key parent) h w = (tt, tt)
  Adds-IsUnder keys (matches_parent key parent n ns) h w = (tt, tt)
  Adds-IsUnder keys (fails_parent key parent n ns) h w = (tt, tt)
  Adds-IsUnder keys (adds_children {key = k} a l) h w = (
    h,
    All-append (IsUnder keys) _ _
        (AddsAll-IsUnder keys a (w k (has-here k _)) (λ c i. w c (has-there c k _ i)))
        (Links-IsUnder keys l),
  )
  Adds-IsUnder keys (fails_children {key = k} a) h w =
      (h, AddsAll-IsUnder keys a (w k (has-here k _)) (λ c i. w c (has-there c k _ i)))

  AddsAll-IsUnder :
      (keys : List String) {ns : FlowJobs} {p : String} {t : List Event} {ok : Bool}
      → AddsAll ns p t ok
      → has p keys ≡ true
      → Within (keys_of_all ns) keys
      → All (IsUnder keys) t
  AddsAll-IsUnder keys (adds_none p) h w = tt
  AddsAll-IsUnder keys (adds_more {n = n} {ns = ns} a b s) h w =
      All-Shuffle (IsUnder keys) s
        (Adds-IsUnder keys a h (λ c i. w c (has-append c (keys_of n) (keys_of_all ns) ∙ rw i refl)))
        (AddsAll-IsUnder keys b h
          (λ c i. w c (has-append c (keys_of n) (keys_of_all ns) ∙ rw i (ground arith))))

-- All calls of a node but the first are about jobs under the flow's own.
pub Adds-rest :
    {n : FlowJob} {parent : Option String} {e : Event} {t : List Event} {ok : Bool}
    → Adds n parent (e ∷ t) ok
    → All (IsUnder (keys_of n)) t
unfolding keys_of
Adds-rest (adds_leaf key parent) = tt
Adds-rest (matches_leaf key parent) = tt
Adds-rest (fails_leaf key parent) = tt
Adds-rest (matches_parent key parent n ns) = tt
Adds-rest (fails_parent key parent n ns) = tt
Adds-rest (adds_children {key = k} {n = n} {ns = ns} a l) =
    let keys = keys_of (flow k (more n ns)) in
    All-append (IsUnder keys) _ _ (AddsAll-IsUnder keys a (has-here k _) (λ c i. has-there c k _ i))
      (Links-IsUnder keys l)
Adds-rest (fails_children {key = k} {n = n} {ns = ns} a) =
    AddsAll-IsUnder (keys_of (flow k (more n ns))) a (has-here k _) (λ c i. has-there c k _ i)
