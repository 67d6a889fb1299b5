-- ===== src/ChildPool/Preserve.antt =====
-- Each operation of the pool of src/classes/child-pool.ts leaves a child in one place.
pub mod Retain
use elephantmq.Base.{
  inl, str_eq, arith, if◌then◌else◌, some, inr, Bool, ◌+◌, ◌++◌, eq_iff, String, [], refl, ◌≡◌, err,
  Bool-cases, ok, false, none, ◌≤◌, Option, ==_iff, ℕ, Option-cases, ap, true, subst, ◌∷◌, ◌==◌,
  ◌∙◌, sym, List, Result, elem,
}
use elephantmq.ChildPool.Places.{
  pop-some, count-push, is_child, count-remove, elem-push, elem-last, count-popped,
  is_under-dropped_self, is_under, one_if, count-elem, get_free-set_free, one_if_le, elem-count,
  is_retained, is_under-assigned_other, is_under-dropped, places, count,
}
use elephantmq.ChildPool.{
  remove_child, at_pid, set_free, hand_out, begin_retain, kill_all, no_children, ChildPool,
  finish_retain, get_free, PoolError, release, kept, fail, dropped, assigned, pop, answered,
}

module _ (process_file : ℕ → String) (pid : ℕ → Option ℕ) where
  -- A child stands in one place at most, and a free one under its own file.
  pub record IsGood (q : ChildPool) : Type 0 where
    pub once : (c : ℕ) → places process_file pid c q ≤ 1
    pub filed : (c : ℕ) (f : String) → elem c (get_free f q) ≡ true → process_file c ≡ f

  pub filed-set_free :
      (f : String) (cs : List ℕ) (q : ChildPool)
      → ((c : ℕ) → elem c cs ≡ true → process_file c ≡ f)
      → ((c : ℕ) (g : String) → elem c (get_free g q) ≡ true → process_file c ≡ g)
      → (c : ℕ) (g : String) → elem c (get_free g (set_free f cs q)) ≡ true
      → process_file c ≡ g
  filed-set_free f cs q new old c g h = elim (Bool-cases (str_eq f g)) [
    | inl e ↦
        new c (sym (ap (elem c) (get_free-set_free g f cs q ∙ rw e refl)) ∙ h) ∙ (eq_iff f g).0 e
    | inr e ↦ old c g (sym (ap (elem c) (get_free-set_free g f cs q ∙ rw e refl)) ∙ h)
  ]

  -- A new free list of one file, and new retained children, each in one place.
  pub replace-IsGood :
      (f : String) (cs : List ℕ) (m : List (ℕ × ℕ)) (q : ChildPool)
      → ((c : ℕ) → elem c cs ≡ true → process_file c ≡ f)
      → ((c : ℕ) → f ≡ process_file c → one_if (is_under c (pid c) m) + count c cs ≤ 1)
      → ((c : ℕ)
          → str_eq f (process_file c) ≡ false
          → one_if (is_under c (pid c) m) + count c (get_free (process_file c) q) ≤ 1)
      → IsGood q
      → IsGood (set_free f cs (record q { retained = m }))
  unfolding places set_free
  replace-IsGood f cs m q filed same other g = record {
    once = λ c.
        rw (get_free-set_free (process_file c) f cs q)
          (elim (Bool-cases (str_eq f (process_file c))) [
            | inl e ↦ rw e (same c ((eq_iff f (process_file c)).0 e))
            | inr e ↦ rw e (other c e)
          ]);
    filed = filed-set_free f cs q filed g.filed;
  }

  -- A free list of which some are taken out.
  pub shrink-IsGood :
      (f : String) (cs : List ℕ) (m : List (ℕ × ℕ)) (q : ChildPool)
      → ((c : ℕ) → count c cs ≤ count c (get_free f q))
      → ((c : ℕ) → one_if (is_under c (pid c) m) ≤ one_if (is_retained process_file pid c q))
      → IsGood q
      → IsGood (set_free f cs (record q { retained = m }))
  unfolding places
  shrink-IsGood f cs m q less fewer g =
      replace-IsGood f cs m q
        (λ c h. g.filed c f (elem-count c _ (omega (arith, less c, count-elem c cs h))))
        (λ c e.
          let l = subst (λ h. count c cs ≤ count c (get_free h q)) e (less c) in
          omega (arith, l, fewer c, g.once c))
        (λ c e. omega (arith, fewer c, g.once c)) g

  abbrev pub held_by : ℕ → List (ℕ × ℕ) → List ℕ → ℕ
  held_by c m xs = one_if (is_under c (pid c) m) + count c xs

  -- A child that goes from the retained ones to the free ones.
  pushed_once :
      (c p : ℕ) (q : ChildPool)
      → pid c ≡ some p
      → count c (get_free (process_file c) q) ≡ 0
      → ((d : ℕ) → places process_file pid d q ≤ 1)
      → (d : ℕ) → process_file c ≡ process_file d
      → held_by d (dropped p q.retained) (get_free (process_file c) q ++ c ∷ []) ≤ 1
  unfolding places
  pushed_once c p q e z g d f = elim (Bool-cases (c == d)) [
    | inl same ↦
        let xs = get_free (process_file c) q in
        subst (λ i. held_by i (dropped p q.retained) (xs ++ c ∷ []) ≤ 1) ((==_iff c d).0 same)
          (rw (e, is_under-dropped_self c p q.retained, count-push c c xs, z) (ground arith))
    | inr other ↦
        let l =
          subst (λ h. one_if (is_retained process_file pid d q) + count d (get_free h q) ≤ 1)
            (sym f) (g d) in
        rw (count-push d c (get_free (process_file c) q), other)
          (omega (arith, l, is_under-dropped d (pid d) p q.retained))
  ]

  pub release-IsGood :
      (c : ℕ) (q : ChildPool)
      → count c (get_free (process_file c) q) ≡ 0
      → IsGood q
      → IsGood (kept q (release process_file pid c q))
  unfolding release places
  release-IsGood c q z g = elim (Option-cases (pid c)) [
    | inl e ↦ rw (e, kept) g
    | inr (p, e) ↦
        rw (e, kept)
          (replace-IsGood _ _ _ q
            (λ d h. elim (elem-push d c _ h) [
              | inl old ↦ g.filed d _ old
              | inr new ↦ sym (ap process_file new)
            ])
            (pushed_once c p q e z g.once)
            (λ d o. omega (arith, is_under-dropped d (pid d) p q.retained, g.once d)) g)
  ]

  pub remove_child-IsGood :
      (c : ℕ) (q : ChildPool) → IsGood q → IsGood (kept q (remove_child process_file pid c q))
  unfolding remove_child
  remove_child-IsGood c q g = elim (Option-cases (pid c)) [
    | inl e ↦ rw (e, kept) g
    | inr (p, e) ↦
        rw (e, kept)
          (shrink-IsGood _ _ _ q (λ d. count-remove d c _)
            (λ d. is_under-dropped d (pid d) p q.retained) g)
  ]

  pub no_children-IsGood : IsGood no_children
  unfolding places is_under at_pid is_child
  no_children-IsGood = record {
    once = λ c. elim (Option-cases (pid c)) [
      | inl e ↦ rw e (omega arith)
      | inr (p, e) ↦ rw e (omega arith)
    ];
    filed = λ c f h. cc;
  }

  pub kill_all-IsGood :
      (cs : List ℕ) (q : ChildPool) → IsGood q → IsGood (kill_all process_file pid cs q)
  unfolding kill_all
  kill_all-IsGood [] q g = g
  kill_all-IsGood (c ∷ cs) q g = kill_all-IsGood cs _ (remove_child-IsGood c q g)
