-- ===== src/Clean/Ends.antt =====
-- The loop of `clean` of src/classes/queue.ts: that it ends, and what it deletes.
use elephantmq.Base.{
  ◌++◌, [], ℕ, ◌∷◌, String, length, Bool-cases, ◌≡◌, inl, ◌+◌, inr, ltb, refl, ◌≤◌, if◌then◌else◌,
  arith, List, ap, zero, suc, ◌<◌, some, ◌==◌, max, false, sym, ◌∙◌, true, append-nil, append_assoc,
  length-append, ◌⊎◌,
}
use elephantmq.Clean.Picked.{
  unpicked-split_picked, picked-Parts, unpicked-all, length-split_picked, Parts,
  picked-split_picked, picked-rest, picked, unpicked,
}
use elephantmq.Clean.{
  clean_jobs_in_set, split_picked, JobRow, clean_loop, emq_clean_jobs_in_set_v1, count_per_call,
  below, clean, normalized,
}

count_per_call_bounds : (limit : ℕ) → (0 < count_per_call limit) × (count_per_call limit ≤ 10000)
unfolding count_per_call
count_per_call_bounds limit = ground arith

fewer : (a n b m k : ℕ) → ltb a n ≡ false → 0 < n → a + b ≤ m → m < suc k → b < k
fewer a n b m k f p s l = ground arith

empty : (l : List String) → (length l == 0) ≡ true → l ≡ []
empty [] e = refl
empty (i ∷ l) e = ground arith

grows : (a b n limit : ℕ) → below a limit ≡ true → b ≤ n → 0 < limit → a + b < limit + n
unfolding below
grows a b n limit e s p = ground arith

none_or_bounded {ℓ} : {P : Type ℓ} (limit : ℕ) → (0 < limit → P) → (limit ≡ 0) ⊎ P
none_or_bounded zero b = inl refl
none_or_bounded (suc n) b = inr (b (omega arith))

module _ (cascade : List String → List JobRow → List JobRow) where
  -- A call takes at most as many as it asks for, and the rows that it leaves are so many fewer, or fewer
  -- still.
  length-clean_jobs_in_set :
      (state : String) (before limit : ℕ) (rows : List JobRow)
      → 0 < limit
      → ((i : List String) (r : List JobRow) → length (cascade i r) ≤ length r)
      → (length (clean_jobs_in_set cascade state before limit rows).0 ≤ limit)
        × (length (clean_jobs_in_set cascade state before limit rows).0
              + length (clean_jobs_in_set cascade state before limit rows).1
            ≤ length rows)
  unfolding clean_jobs_in_set emq_clean_jobs_in_set_v1
  length-clean_jobs_in_set state before limit rows p c =
      let n : max (if ltb 0 limit then limit else 10000) 1 ≡ limit = ground arith in
      let s = length-split_picked state before limit rows in
      elim (Bool-cases (length (split_picked state before limit rows).0 == 0)) [
        | inl e ↦ rw (n, e) (s.0, ground arith)
        | inr e ↦
            rw (n, e)
              (
                s.0,
                omega (
                  arith,
                  s.1,
                  c (split_picked state before limit rows).0
                      (split_picked state before limit rows).1,
                ),
              )
      ]

  clean_loop-ends :
      (fuel : ℕ) (set : String) (timestamp limit : ℕ) (deleted : List String) (rows : List JobRow)
      → ((i : List String) (r : List JobRow) → length (cascade i r) ≤ length r)
      → length rows < fuel
      → (0 < limit → length deleted < limit + count_per_call limit)
      → (r : List String × List JobRow) × (clean_loop cascade fuel set timestamp limit deleted rows
          ≡ some r)
        × ((0 < limit) → length r.0 < limit + count_per_call limit)
  unfolding clean_loop
  clean_loop-ends zero set timestamp limit deleted rows c l d = ground arith
  clean_loop-ends (suc fuel) set timestamp limit deleted rows c l d =
      let ids = (clean_jobs_in_set cascade set timestamp (count_per_call limit) rows).0 in
      let rest = (clean_jobs_in_set cascade set timestamp (count_per_call limit) rows).1 in
      let n = count_per_call_bounds limit in
      let s = length-clean_jobs_in_set set timestamp (count_per_call limit) rows n.0 c in
      let bound : below (length deleted) limit ≡ true
          → 0 < limit
          → length (deleted ++ ids) < limit + count_per_call limit =
        λ e p.
          rw (length-append deleted ids)
            (grows (length deleted) (length ids) (count_per_call limit) limit e s.0 p) in
      elim (Bool-cases (below (length deleted) limit)) [
        | inr e ↦ ((deleted, rows), rw e refl, d)
        | inl e ↦ elim (Bool-cases (ltb (length ids) (count_per_call limit))) [
          | inl f ↦ ((deleted ++ ids, rest), rw (e, f) refl, bound e)
          | inr f ↦
              let next =
                clean_loop-ends fuel set timestamp limit (deleted ++ ids) rest c
                  (fewer (length ids) (count_per_call limit) (length rest) (length rows) fuel f n.0
                    s.1 l)
                  (bound e) in
              (next.0, rw (e, f) next.1, next.2)
        ]
      ]

  -- What `clean` deletes without a limit, where no parent is touched.
  clean_jobs_in_set-picked :
      (set : String) (timestamp n : ℕ) (rows : List JobRow)
      → 0 < n
      → ((i : List String) (r : List JobRow) → cascade i r ≡ r)
      → (picked set timestamp rows
          ≡ (clean_jobs_in_set cascade set timestamp n rows).0
            ++ picked set timestamp (clean_jobs_in_set cascade set timestamp n rows).1)
        × (length (clean_jobs_in_set cascade set timestamp n rows).0 < n
            → picked set timestamp (clean_jobs_in_set cascade set timestamp n rows).1 ≡ [])
  unfolding clean_jobs_in_set emq_clean_jobs_in_set_v1
  clean_jobs_in_set-picked set timestamp n rows p c =
      let m : max (if ltb 0 n then n else 10000) 1 ≡ n = ground arith in
      let whole = picked-split_picked set timestamp n rows in
      let rest = picked-rest set timestamp n rows in
      elim (Bool-cases (length (split_picked set timestamp n rows).0 == 0)) [
        | inl e ↦
            let none_taken = empty (split_picked set timestamp n rows).0 e in
            rw (m, e)
              (
                sym (ap (λ l. l ++ picked set timestamp rows) none_taken),
                λ q.
                    whole
                    ∙ ap (λ l. l ++ picked set timestamp (split_picked set timestamp n rows).1)
                        none_taken
                    ∙ rest q,
              )
        | inr e ↦
            rw (m, e, c (split_picked set timestamp n rows).0 (split_picked set timestamp n rows).1)
              (whole, rest)
      ]

  clean_jobs_in_set-unpicked :
      (set : String) (timestamp n : ℕ) (rows : List JobRow)
      → 0 < n
      → ((i : List String) (r : List JobRow) → cascade i r ≡ r)
      → unpicked set timestamp (clean_jobs_in_set cascade set timestamp n rows).1
        ≡ unpicked set timestamp rows
  unfolding clean_jobs_in_set emq_clean_jobs_in_set_v1
  clean_jobs_in_set-unpicked set timestamp n rows p c =
      let m : max (if ltb 0 n then n else 10000) 1 ≡ n = ground arith in
      elim (Bool-cases (length (split_picked set timestamp n rows).0 == 0)) [
        | inl e ↦ rw (m, e) refl
        | inr e ↦
            rw (m, e, c (split_picked set timestamp n rows).0 (split_picked set timestamp n rows).1)
              (unpicked-split_picked set timestamp n rows)
      ]

  clean_loop-picked :
      (fuel : ℕ) (set : String) (timestamp : ℕ) (deleted : List String) (rows : List JobRow)
      → ((i : List String) (s : List JobRow) → cascade i s ≡ s)
      → length rows < fuel
      → (rest : List JobRow) × (clean_loop cascade fuel set timestamp 0 deleted rows
          ≡ some (deleted ++ picked set timestamp rows, rest))
        × (picked set timestamp rest ≡ [])
        × (unpicked set timestamp rest ≡ unpicked set timestamp rows)
  unfolding clean_loop below count_per_call
  clean_loop-picked zero set timestamp deleted rows c l = ground arith
  clean_loop-picked (suc fuel) set timestamp deleted rows c l =
      let ids = (clean_jobs_in_set cascade set timestamp 10000 rows).0 in
      let left = (clean_jobs_in_set cascade set timestamp 10000 rows).1 in
      let s =
        length-clean_jobs_in_set set timestamp 10000 rows (omega arith)
          (λ i r. rw (c i r) (omega arith)) in
      let p = clean_jobs_in_set-picked set timestamp 10000 rows (omega arith) c in
      elim (Bool-cases (ltb (length ids) 10000)) [
        | inl f ↦
            let nothing = p.1 (ground arith) in
            (
              left,
              rw f (
                  ap (λ m. some (deleted ++ m, left))
                    (sym (p.0 ∙ ap (λ q. ids ++ q) nothing ∙ append-nil ids))),
              nothing,
              clean_jobs_in_set-unpicked set timestamp 10000 rows (omega arith) c,
            )
        | inr f ↦
            let next =
              clean_loop-picked fuel set timestamp (deleted ++ ids) left c
                (fewer (length ids) 10000 (length left) (length rows) fuel f (omega arith) s.1 l) in
            (
              next.0,
              rw f (
                  next.1
                  ∙ ap (λ m. some (m, next.0))
                      (append_assoc deleted ids (picked set timestamp left)
                        ∙ ap (λ q. deleted ++ q) (sym p.0))),
              next.2,
              next.3 ∙ clean_jobs_in_set-unpicked set timestamp 10000 rows (omega arith) c,
            )
      ]

  -- Where the parents of deleted jobs make no new rows, `clean` ends within as many calls as there are
  -- rows, and one more. With a limit it deletes fewer than the limit and a whole call together.
  pub clean-bounded :
      (timestamp limit : ℕ) (type : String) (rows : List JobRow)
      → ((i : List String) (r : List JobRow) → length (cascade i r) ≤ length r)
      → (r : List String × List JobRow) × (clean cascade
            (suc (length rows))
            timestamp
            limit
            type
            rows
          ≡ some r)
        × ((limit ≡ 0) ⊎ (length r.0 < limit + count_per_call limit))
  unfolding clean
  clean-bounded timestamp limit type rows c =
      let r =
        clean_loop-ends (suc (length rows)) (normalized type) timestamp limit [] rows c
          (omega arith) (λ p. omega (arith, p)) in
      (r.0, r.1, none_or_bounded limit r.2)

  -- Without a limit, and where no job has a parent to see to, `clean` ends within as many calls as there
  -- are rows, and one more. It answers the ids of the jobs that are in the state, old enough and not the
  -- next ones of a scheduler, in their order, and the rows that are left are exactly the others, in theirs.
  pub clean-picked :
      (timestamp : ℕ) (type : String) (rows : List JobRow)
      → ((i : List String) (r : List JobRow) → cascade i r ≡ r)
      → (ids : List String) × (rest : List JobRow) × (clean cascade
            (suc (length rows))
            timestamp
            0
            type
            rows
          ≡ some (ids, rest))
        × Parts (normalized type) timestamp rows ids rest
  unfolding clean
  clean-picked timestamp type rows c =
      let set = normalized type in
      let (rest, ended, none_left, others) =
        clean_loop-picked (suc (length rows)) set timestamp [] rows c (omega arith) in
      (
        picked set timestamp rows,
        unpicked set timestamp rows,
        ended
            ∙ ap (λ l. some (picked set timestamp rows, l))
                (sym (unpicked-all set timestamp rest none_left) ∙ others),
        picked-Parts set timestamp rows,
      )
