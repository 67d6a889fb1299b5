-- ===== src/ChildPool/Reuse.antt =====
-- The free children of the pool of src/classes/child-pool.ts are handed out again.
use elephantmq.Base.{
  String, ◌++◌, [], refl, ℕ, some, ok, ◌∷◌, Option, ◌≡◌, eq_refl, Bool, true, ap, false, eq_iff,
  none, inr, str_eq, ◌∙◌, err, inl, Bool-cases,
}
use elephantmq.ChildPool.{
  ChildPool, set_free, begin_retain, get_free, release, dropped, finish_retain, PoolError, hand_out,
  assigned, fail, pop,
}
use elephantmq.ChildPool.Places.{get_free-set_free, pop-append}
use elephantmq.ChildPool.Exclusive.{hand_out-some}

module _ (process_file : ℕ → String) (pid : ℕ → Option ℕ) where
  released_is :
      (c p : ℕ) (q : ChildPool)
      → pid c ≡ some p
      → release process_file pid c q
        ≡ ok (
            set_free
              (process_file c)
              (get_free (process_file c) q ++ c ∷ [])
              (record q { retained = dropped p q.retained }))
  unfolding release get_free
  released_is c p q e = rw (e, release) refl

  -- The pool after a child was pushed on the free list of its file, and then popped.
  abbrev pushed : ℕ → ℕ → ChildPool → ChildPool
  pushed c p q =
      set_free (process_file c) (get_free (process_file c) q ++ c ∷ [])
        (record q { retained = dropped p q.retained })

  begin_retain-pushed :
      (c p : ℕ) (q : ChildPool)
      → pid c ≡ some p
      → begin_retain process_file pid (process_file c) (pushed c p q) ≡ (
        set_free
            (process_file c)
            (get_free (process_file c) q)
            (record (pushed c p q) { retained = assigned p c (pushed c p q).retained }),
        ok (some c),
      )
  unfolding begin_retain
  begin_retain-pushed c p q e =
      let xs = get_free (process_file c) q in
      let left : ChildPool = record q { retained = dropped p q.retained } in
      let free_now : get_free (process_file c) (pushed c p q) ≡ xs ++ c ∷ [] =
        get_free-set_free (process_file c) (process_file c) (xs ++ c ∷ []) left
        ∙ rw (eq_refl (process_file c)) refl in
      ap (hand_out process_file pid (process_file c) (pushed c p q))
        (ap pop free_now ∙ pop-append xs c)
      ∙ hand_out-some process_file pid (process_file c) (pushed c p q) xs c p e

  free_again :
      (c p : ℕ) (q : ChildPool) (f : String)
      → get_free f (
          set_free
            (process_file c)
            (get_free (process_file c) q)
            (record (pushed c p q) { retained = assigned p c (pushed c p q).retained }))
        ≡ get_free f q
  unfolding get_free
  free_again c p q f =
      let file = process_file c in
      let left : ChildPool = record q { retained = dropped p q.retained } in
      let r : ChildPool = record (pushed c p q) {
        retained = assigned p c (pushed c p q).retained;
      } in
      get_free-set_free f file (get_free file q) r ∙ elim (Bool-cases (str_eq file f)) [
        | inl e ↦ rw e (ap (λ g. get_free g q) ((eq_iff file f).0 e))
        | inr e ↦ rw e (get_free-set_free f file (get_free file q ++ c ∷ []) left ∙ rw e refl)
      ]

  -- A child that has a pid can be released. The next call for a child of its file is given this
  -- child, and leaves the free children of every file as they were before the release.
  pub release-begin_retain :
      (c p : ℕ) (q : ChildPool)
      → pid c ≡ some p
      → (r : ChildPool) × (release process_file pid c q ≡ ok r)
        × ((begin_retain process_file pid (process_file c) r).1 ≡ ok (some c))
        × ((f : String)
            → get_free f (begin_retain process_file pid (process_file c) r).0 ≡ get_free f q)
  release-begin_retain c p q e = (
    pushed c p q,
    released_is c p q e,
    ap (λ x. x.1) (begin_retain-pushed c p q e),
    λ f. ap (λ x. get_free f x.0) (begin_retain-pushed c p q e) ∙ free_again c p q f,
  )

  finish_retain-ok :
      (c p : ℕ) (q : ChildPool)
      → pid c ≡ some p
      → (finish_retain process_file pid c none false q).1 ≡ ok c
  unfolding finish_retain
  finish_retain-ok c p q e = rw (e, finish_retain) refl

  finish_retain-fails :
      (c p : ℕ) (init : Option String) (exited : Bool) (q : ChildPool) (x : PoolError)
      → pid c ≡ some p
      → (finish_retain process_file pid c init exited q).1 ≡ err x
      → (finish_retain process_file pid c init exited q).0 ≡ pushed c p q
  unfolding finish_retain fail
  finish_retain-fails c p (some message) exited q x e h = rw (released_is c p q e) refl
  finish_retain-fails c p none true q x e h = rw (released_is c p q e) refl
  finish_retain-fails c p none false q x e h = absurd (cc (h, finish_retain-ok c p q e))

  -- Where a new child fails to start, or has exited before it is retained, and has a pid, the caller
  -- is thrown an error, and the next caller that asks for a child of the file is given that child.
  finish_retain-reused :
      (c p : ℕ) (init : Option String) (exited : Bool) (q : ChildPool) (x : PoolError)
      → pid c ≡ some p
      → (finish_retain process_file pid c init exited q).1 ≡ err x
      → (begin_retain process_file pid
          (process_file c)
          (finish_retain process_file pid c init exited q).0).1
        ≡ ok (some c)
  finish_retain-reused c p init exited q x e h =
      rw (finish_retain-fails c p init exited q x e h) (ap (λ y. y.1) (begin_retain-pushed c p q e))
