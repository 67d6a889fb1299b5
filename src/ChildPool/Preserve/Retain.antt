-- ===== src/ChildPool/Preserve/Retain.antt =====
-- `retain` of the pool of src/classes/child-pool.ts leaves a child in one place.
use elephantmq.Base.{
  Result, inl, inr, if◌then◌else◌, sym, ℕ, ◌≡◌, true, refl, eq_iff, subst, Bool-cases, Option-cases,
  ◌==◌, ◌∷◌, str_eq, ap, err, ==_iff, arith, Bool, [], some, Option, String, ok, ◌++◌, elem, ◌∙◌,
  List, false, ◌+◌, ◌≤◌, none,
}
use elephantmq.ChildPool.Preserve.{shrink-IsGood, held_by, replace-IsGood, IsGood, release-IsGood}
use elephantmq.ChildPool.{
  ChildPool, get_free, PoolError, hand_out, finish_retain, begin_retain, kept, fail, assigned, pop,
  answered, release,
}
use elephantmq.ChildPool.Places.{
  one_if, elem-count, pop-some, is_retained, count-push, count-elem, elem-last, is_under,
  count-popped, is_under-assigned_other, one_if_le, places, count,
}

module _ (process_file : ℕ → String) (pid : ℕ → Option ℕ) where
  -- A child that goes from the free ones to the retained ones.
  popped_once :
      (c p : ℕ) (f : String) (ys : List ℕ) (q : ChildPool)
      → pid c ≡ some p
      → process_file c ≡ f
      → get_free f q ≡ ys ++ c ∷ []
      → ((d : ℕ) → places process_file pid d q ≤ 1)
      → (d : ℕ) → f ≡ process_file d
      → held_by process_file pid d (assigned p c q.retained) ys ≤ 1
  unfolding places
  popped_once c p f ys q e own split g d same =
      let before =
        subst (λ xs. one_if (is_retained process_file pid d q) + count d xs ≤ 1)
          (sym (ap (λ h. get_free h q) same) ∙ split) (g d) in
      let pushed = count-push d c ys in
      elim (Bool-cases (c == d)) [
        | inl h ↦ omega (
          arith,
          one_if_le (is_under d (pid d) (assigned p c q.retained)),
          subst (λ b. count d (ys ++ c ∷ []) ≡ count d ys + (if b then 1 else 0)) h pushed,
          before,
        )
        | inr h ↦ omega (
          arith,
          is_under-assigned_other d c p (pid d) q.retained h,
          subst (λ b. count d (ys ++ c ∷ []) ≡ count d ys + (if b then 1 else 0)) h pushed,
          before,
        )
      ]

  kept_once :
      (c p : ℕ) (f : String) (q : ChildPool)
      → process_file c ≡ f
      → ((d : ℕ) → places process_file pid d q ≤ 1)
      → (d : ℕ) → str_eq f (process_file d) ≡ false
      → held_by process_file pid d (assigned p c q.retained) (get_free (process_file d) q) ≤ 1
  unfolding places
  kept_once c p f q own g d o = elim (Bool-cases (c == d)) [
    | inl h ↦
        let same = sym own ∙ ap process_file ((==_iff c d).0 h) in
        absurd (cc (o, (eq_iff f (process_file d)).1 same))
    | inr h ↦ omega (arith, is_under-assigned_other d c p (pid d) q.retained h, g d)
  ]

  hand_out-IsGood :
      (f : String) (q : ChildPool) (popped : Option (List ℕ × ℕ))
      → pop (get_free f q) ≡ popped
      → IsGood process_file pid q
      → IsGood process_file pid (hand_out process_file pid f q popped).0
  unfolding hand_out count
  hand_out-IsGood f q none e g =
      shrink-IsGood process_file pid f [] q.retained q (λ c. omega arith) (λ c. omega arith) g
  hand_out-IsGood f q (some (ys, c)) e g =
      let split = pop-some _ ys c e in
      let own = g.filed c f (subst (λ xs. elem c xs ≡ true) (sym split) (elem-last c ys)) in
      let less = λ (d : ℕ). count-popped d c _ ys split in
      elim (Option-cases (pid c)) [
        | inl n ↦
            rw (n, hand_out)
              (shrink-IsGood process_file pid f ys q.retained q less (λ d. omega arith) g)
        | inr (p, n) ↦
            rw (n, hand_out)
              (replace-IsGood process_file pid f ys _ q
                (λ d h. g.filed d f (elem-count d _ (omega (arith, less d, count-elem d ys h))))
                (popped_once c p f ys q n own split g.once)
                (λ d o. kept_once c p f q own g.once d o) g)
      ]

  pub begin_retain-IsGood :
      (f : String) (q : ChildPool)
      → IsGood process_file pid q
      → IsGood process_file pid (begin_retain process_file pid f q).0
  unfolding begin_retain
  begin_retain-IsGood f q g = hand_out-IsGood f q _ refl g

  answered-IsGood :
      (e : PoolError) (q : ChildPool) (r : Result PoolError ChildPool)
      → IsGood process_file pid (kept q r)
      → IsGood process_file pid (answered e q r).0
  answered-IsGood e q (err x) g = g
  answered-IsGood e q (ok released) g = g

  assigned-IsGood :
      (c p : ℕ) (q : ChildPool)
      → places process_file pid c q ≡ 0
      → IsGood process_file pid q
      → IsGood process_file pid (record q { retained = assigned p c q.retained })
  unfolding places
  assigned-IsGood c p q z g = record {
    once = λ d. elim (Bool-cases (c == d)) [
      | inl h ↦
          let zero_at = subst (λ i. places process_file pid i q ≡ 0) ((==_iff c d).0 h) z in
          omega (arith, one_if_le (is_under d (pid d) (assigned p c q.retained)), zero_at)
      | inr h ↦ omega (arith, is_under-assigned_other d c p (pid d) q.retained h, g.once d)
    ];
    filed = g.filed;
  }

  fail-IsGood :
      (e : PoolError) (c : ℕ) (q : ChildPool)
      → places process_file pid c q ≡ 0
      → IsGood process_file pid q
      → IsGood process_file pid (fail process_file pid e c q).0
  unfolding fail places
  fail-IsGood e c q z g =
      answered-IsGood e q (release process_file pid c q)
        (release-IsGood process_file pid c q (omega (arith, z)) g)

  pub finish_retain-IsGood :
      (c : ℕ) (init : Option String) (exited : Bool) (q : ChildPool)
      → places process_file pid c q ≡ 0
      → IsGood process_file pid q
      → IsGood process_file pid (finish_retain process_file pid c init exited q).0
  unfolding finish_retain
  finish_retain-IsGood c (some message) exited q z g = fail-IsGood _ c q z g
  finish_retain-IsGood c none true q z g = fail-IsGood _ c q z g
  finish_retain-IsGood c none false q z g = elim (Option-cases (pid c)) [
    | inl e ↦ rw (e, finish_retain) (fail-IsGood _ c q z g)
    | inr (p, e) ↦ rw (e, finish_retain) (assigned-IsGood c p q z g)
  ]
