-- ===== src/Trimmer/Bound.antt =====
-- How many events a trim leaves (src/classes/events-trimmer.ts).
use elephantmq.Base.{
  ◌≤◌, [], ℕ, suc, none, ◌+◌, length, inl, some, arith, filter_by, ◌≡◌, List, ◌∷◌, ◌==◌, ◌-◌,
  Bool-cases, true, ◌⊎◌, inr, Option-cases, leb, sym, refl, ◌∙◌, false, ap, subst, Bool, ◌<◌,
}
use elephantmq.Trimmer.{max_id, is_kept, EmqEvent, or_larger, trim_events_for_queue}

-- The rows are in the order of their ids, which are distinct, from a first one on.
abbrev pub Ascending : ℕ → List EmqEvent → Type 0
Ascending low [] = Unit {0}
Ascending low (e ∷ es) = (low ≤ e.id) × Ascending (suc e.id) es

abbrev pub of_queue : ℕ → List EmqEvent → List EmqEvent
of_queue q es = filter_by (λ e. e.queue_id == q) es

-- No row of the queue has a larger id.
abbrev UpTo : ℕ → ℕ → List EmqEvent → Type 0
UpTo q newest [] = Unit {0}
UpTo q newest (e ∷ es) = ((e.queue_id == q) ≡ true → e.id ≤ newest) × UpTo q newest es

UpTo-more : (q m n : ℕ) (es : List EmqEvent) → m ≤ n → UpTo q m es → UpTo q n es
UpTo-more q m n [] h u = tt
UpTo-more q m n (e ∷ es) h u = ((λ i. omega (arith, u.0 i)), UpTo-more q m n es h u.1)

max_id_in :
    (q : ℕ) (e : EmqEvent) (es : List EmqEvent)
    → (e.queue_id == q) ≡ true
    → max_id q (e ∷ es) ≡ some (or_larger e.id (max_id q es))
unfolding max_id
max_id_in q e es i = rw i refl

max_id_out :
    (q : ℕ) (e : EmqEvent) (es : List EmqEvent)
    → (e.queue_id == q) ≡ false
    → max_id q (e ∷ es) ≡ max_id q es
unfolding max_id
max_id_out q e es o = rw o refl

UpTo-none : (q m : ℕ) (es : List EmqEvent) → max_id q es ≡ none → UpTo q m es
unfolding max_id
UpTo-none q m [] h = tt
UpTo-none q m (e ∷ es) h = elim (Bool-cases (e.queue_id == q)) [
  | inl i ↦ absurd (cc (h, max_id_in q e es i))
  | inr o ↦ (λ i. absurd (cc (o, i)), UpTo-none q m es (sym (max_id_out q e es o) ∙ h))
]

max_id-UpTo : (q m : ℕ) (es : List EmqEvent) → max_id q es ≡ some m → UpTo q m es
unfolding max_id
max_id-UpTo q m [] h = tt
max_id-UpTo q m (e ∷ es) h = elim (Bool-cases (e.queue_id == q)) [
  | inl i ↦
      let top : or_larger e.id (max_id q es) ≡ m = cc (h, max_id_in q e es i) in
      elim (Option-cases (max_id q es)) [
        | inl n ↦
            let own = ap (or_larger e.id) (sym n) ∙ top in
            (λ j. omega (arith, own), UpTo-none q m es n)
        | inr (r, n) ↦
            let own = ap (or_larger e.id) (sym n) ∙ top in
            (
              λ j. omega (arith, own),
              UpTo-more q r m es (omega (arith, own)) (max_id-UpTo q r es n),
            )
      ]
  | inr o ↦ (λ i. absurd (cc (o, i)), max_id-UpTo q m es (sym (max_id_out q e es o) ∙ h))
]

kept-few :
    (q t m b low : ℕ) (es : List EmqEvent)
    → Ascending low es
    → UpTo q m es
    → (b ≤ low) ⊎ (b ≤ t)
    → length (of_queue q (filter_by (is_kept q t) es)) ≤ m + 1 - b
kept-few q t m b low [] a u h = omega arith
kept-few q t m b low (e ∷ es) a u h =
    let h' : (b ≤ suc e.id) ⊎ (b ≤ t) = ground (arith, h, a.0) in
    let ih = kept-few q t m b (suc e.id) es a.1 u.1 h' in
    let kept = kept-few q t m (suc e.id) (suc e.id) es a.1 u.1 (inl (omega arith)) in
    elim (Bool-cases (e.queue_id == q)) [
      | inl i ↦ elim (Bool-cases (leb t e.id)) [
        | inl l ↦ rw (i, l) (rw i (ground (arith, kept, u.0 i, h, a.0, l)))
        | inr l ↦ rw (i, l) ih
      ]
      | inr o ↦ rw o (rw o ih)
    ]

of_queue-none : (q : ℕ) (es : List EmqEvent) → max_id q es ≡ none → of_queue q es ≡ []
unfolding max_id
of_queue-none q [] h = refl
of_queue-none q (e ∷ es) h = elim (Bool-cases (e.queue_id == q)) [
  | inl i ↦ absurd (cc (h, max_id_in q e es i))
  | inr o ↦ rw o (of_queue-none q es (sym (max_id_out q e es o) ∙ h))
]

of_queue-others :
    (q r t : ℕ) (es : List EmqEvent)
    → (q == r) ≡ false
    → of_queue r (filter_by (is_kept q t) es) ≡ of_queue r es
of_queue-others q r t [] n = refl
of_queue-others q r t (e ∷ es) n = elim (Bool-cases (e.queue_id == q)) [
  | inl i ↦
      let o : (e.queue_id == r) ≡ false = ground (arith, i, n) in
      elim (Bool-cases (leb t e.id)) [
        | inl l ↦ rw (i, l) (rw o (of_queue-others q r t es n))
        | inr l ↦ rw (i, l) (rw o (of_queue-others q r t es n))
      ]
  | inr o ↦ elim (Bool-cases (e.queue_id == r)) [
    | inl y ↦ rw o (rw y (ap (◌∷◌ e) (of_queue-others q r t es n)))
    | inr y ↦ rw o (rw y (of_queue-others q r t es n))
  ]
]

length-filter_by : (p : EmqEvent → Bool) (es : List EmqEvent) → length (filter_by p es) ≤ length es
length-filter_by p [] = omega arith
length-filter_by p (e ∷ es) = ground (arith, length-filter_by p es)

-- Where the rows stand in the order of their ids and the limit is not 0, a trim leaves at most one
-- event of the queue more than the limit, leaves the events of every other queue as they are, and
-- tells how many rows it deleted.
pub trim_events_for_queue-few :
    (q max_len : ℕ) (es : List EmqEvent)
    → Ascending 0 es
    → 0 < max_len
    → (length (of_queue q (trim_events_for_queue q max_len es).0) ≤ max_len + 1)
      × ((r : ℕ)
          → (q == r) ≡ false
          → of_queue r (trim_events_for_queue q max_len es).0 ≡ of_queue r es)
      × ((trim_events_for_queue q max_len es).1 + length (trim_events_for_queue q max_len es).0
          ≡ length es)
unfolding trim_events_for_queue
trim_events_for_queue-few q max_len es a h =
    let some_limit : (max_len == 0) ≡ false = ground (arith, h) in
    elim (Option-cases (max_id q es)) [
      | inl n ↦
          rw (some_limit, n)
            (
              subst (λ l. length l ≤ max_len + 1) (sym (of_queue-none q es n)) (omega arith),
              (λ r o. refl),
              omega arith,
            )
      | inr (m, n) ↦
          let few =
            kept-few q (m - max_len) m (m - max_len) 0 es a (max_id-UpTo q m es n)
              (inr (omega arith)) in
          rw (some_limit, n)
            (
              omega (arith, few),
              (λ r o. of_queue-others q r (m - max_len) es o),
              omega (arith, length-filter_by (is_kept q (m - max_len)) es),
            )
    ]
