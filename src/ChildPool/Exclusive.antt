-- ===== src/ChildPool/Exclusive.antt =====
-- A child of the pool of src/classes/child-pool.ts stands in one place, whatever the callers do that
-- release only what they retain.
use elephantmq.Base.{
  ap, ℕ, some, [], err, refl, true, ◌∷◌, Bool, none, elem, ◌++◌, ◌≡◌, subst, arith, ◌≤◌, Bool-cases,
  inl, Option-cases, false, inr, ok, ◌∙◌, List, String, ◌<◌, ◌+◌, Option, sym,
}
use elephantmq.ChildPool.Places.{
  is_retained, pop-some, one_if, elem-last, count-elem, is_under-assigned, places, count,
}
use elephantmq.ChildPool.{
  no_children, finish_retain, no_usable_pid, get_all_free, set_free, get_free, remove_child,
  begin_retain, hand_out, ChildPool, clean, assigned, kept, release, children,
}
use elephantmq.ChildPool.Preserve.{
  no_children-IsGood, kill_all-IsGood, remove_child-IsGood, release-IsGood, IsGood,
}
use elephantmq.ChildPool.Preserve.Retain.{begin_retain-IsGood, finish_retain-IsGood}
use elephantmq.ChildPool.Preserve.Retain.{finish_retain-IsGood, begin_retain-IsGood}

module _ (process_file : ℕ → String) (pid : ℕ → Option ℕ) where
  -- What callers do: they ask for a child of a file, start a new one, release one that is retained,
  -- and remove any one; and the pool is cleaned.
  pub data Step : ChildPool → ChildPool → Type 0 where
    begins_retain : (q : ChildPool) (f : String) → Step q (begin_retain process_file pid f q).0
    finishes_retain :
        (q : ChildPool) (c : ℕ) (init : Option String) (exited : Bool)
        → places process_file pid c q ≡ 0
        → Step q (finish_retain process_file pid c init exited q).0
    releases :
        (q : ChildPool) (c : ℕ)
        → is_retained process_file pid c q ≡ true
        → Step q (kept q (release process_file pid c q))
    removes : (q : ChildPool) (c : ℕ) → Step q (kept q (remove_child process_file pid c q))
    cleans : (q : ChildPool) → Step q (clean process_file pid q).1

  pub data Reach : ChildPool → Type 0 where
    opens : Reach no_children
    then_step : {q r : ChildPool} → Reach q → Step q r → Reach r

  Step-IsGood : {q r : ChildPool} → Step q r → IsGood process_file pid q → IsGood process_file pid r
  unfolding clean places
  Step-IsGood (begins_retain q f) g = begin_retain-IsGood process_file pid f q g
  Step-IsGood (finishes_retain q c init exited z) g =
      finish_retain-IsGood process_file pid c init exited q z g
  Step-IsGood (releases q c held) g =
      release-IsGood process_file pid c q
        (omega (
          arith,
          subst (λ b. one_if b + count c (get_free (process_file c) q) ≤ 1) held (g.once c),
        ))
        g
  Step-IsGood (removes q c) g = remove_child-IsGood process_file pid c q g
  Step-IsGood (cleans q) g =
      kill_all-IsGood process_file pid (children q.retained ++ get_all_free q.free) no_children
        (no_children-IsGood process_file pid)

  Reach-IsGood : {q : ChildPool} → Reach q → IsGood process_file pid q
  Reach-IsGood opens = no_children-IsGood process_file pid
  Reach-IsGood (then_step r s) = Step-IsGood s (Reach-IsGood r)

  hand_out-none :
      (f : String) (q : ChildPool) (ys : List ℕ) (d : ℕ)
      → pid d ≡ none
      → (hand_out process_file pid f q (some (ys, d))).1 ≡ err no_usable_pid
  unfolding hand_out
  hand_out-none f q ys d n = rw (n, hand_out) refl

  pub hand_out-some :
      (f : String) (q : ChildPool) (ys : List ℕ) (d p : ℕ)
      → pid d ≡ some p
      → hand_out process_file pid f q (some (ys, d))
        ≡ (set_free f ys (record q { retained = assigned p d q.retained }), ok (some d))
  unfolding hand_out
  hand_out-some f q ys d p n = rw (n, hand_out) refl

  hand_out-hands :
      (f : String) (q : ChildPool) (popped : Option (List ℕ × ℕ)) (c : ℕ)
      → (hand_out process_file pid f q popped).1 ≡ ok (some c)
      → ((ys : List ℕ) × (popped ≡ some (ys, c)))
        × (is_retained process_file pid c (hand_out process_file pid f q popped).0 ≡ true)
  unfolding hand_out
  hand_out-hands f q none c h = cc
  hand_out-hands f q (some (ys, d)) c h = elim (Option-cases (pid d)) [
    | inl n ↦ absurd (cc (h, hand_out-none f q ys d n))
    | inr (p, n) ↦
        let gives = hand_out-some f q ys d p n in
        let same : d ≡ c = cc (h, ap (λ x. x.1) gives) in
        (
          (ys, ap (λ x. some (ys, x)) same),
          subst
              (λ x.
                is_retained process_file pid x (hand_out process_file pid f q (some (ys, d))).0
                ≡ true)
              same
              (ap (λ x. is_retained process_file pid d x.0) gives
                ∙ rw n (is_under-assigned d p q.retained)),
        )
  ]

  free_not_retained :
      {q : ChildPool}
      → IsGood process_file pid q
      → (f : String) (ys : List ℕ) (c : ℕ) → get_free f q ≡ ys ++ c ∷ []
      → is_retained process_file pid c q ≡ false
  unfolding places
  free_not_retained {q} g f ys c split =
      let stands = subst (λ xs. elem c xs ≡ true) (sym split) (elem-last c ys) in
      let counted =
        subst (λ h. 0 < count c (get_free h q)) (sym (g.filed c f stands))
          (count-elem c (get_free f q) stands) in
      elim (Bool-cases (is_retained process_file pid c q)) [
        | inl held ↦ absurd (
            omega (
              arith,
              counted,
              subst (λ b. one_if b + count c (get_free (process_file c) q) ≤ 1) held (g.once c),
            ))
        | inr free ↦ free
      ]

  -- Where callers release only what they retain, and a new child is not in the pool yet, the pool
  -- never has a child in two places; and a free child that it hands out was not retained, and then
  -- is.
  pub Reach-exclusive :
      (q : ChildPool) (f : String) (c : ℕ)
      → Reach q
      → (begin_retain process_file pid f q).1 ≡ ok (some c)
      → ((d : ℕ) → places process_file pid d q ≤ 1)
        × (is_retained process_file pid c q ≡ false)
        × (is_retained process_file pid c (begin_retain process_file pid f q).0 ≡ true)
  unfolding begin_retain places
  Reach-exclusive q f c r e =
      let g = Reach-IsGood r in
      let ((ys, popped), held) = hand_out-hands f q _ c e in
      (g.once, free_not_retained g f ys c (pop-some _ ys c popped), held)
