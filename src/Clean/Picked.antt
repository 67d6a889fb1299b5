-- ===== src/Clean/Picked.antt =====
-- The rows that a call of src/sql/functions/100_cleanJobsInSet-3.sql takes, and those that it leaves.
use elephantmq.Base.{
  suc, Bool-cases, if◌then◌else◌, false, String, ◌≤◌, ℕ, List, ◌≢◌, ◌≡◌, ◌∷◌, inr, zero, length,
  true, arith, inl, ◌+◌, refl, ◌⊎◌, ◌<◌, [], eq_iff, ◌++◌, ap,
}
use elephantmq.Clean.{split_picked, JobRow, is_picked}

pub length-split_picked :
    (state : String) (before n : ℕ) (rows : List JobRow)
    → (length (split_picked state before n rows).0 ≤ n)
      × (length (split_picked state before n rows).0 + length (split_picked state before n rows).1
          ≡ length rows)
unfolding split_picked
length-split_picked state before zero rows = (omega arith, omega arith)
length-split_picked state before (suc n) [] = (omega arith, omega arith)
length-split_picked state before (suc n) (r ∷ rows) =
    let with_it = length-split_picked state before n rows in
    let without = length-split_picked state before (suc n) rows in
    elim (Bool-cases (is_picked state before r)) [
      | inl p ↦ rw p (omega (arith, with_it.0), omega (arith, with_it.1))
      | inr p ↦ rw p (without.0, omega (arith, without.1))
    ]

-- The ids of the rows that are picked, in order.
unfoldable pub picked : String → ℕ → List JobRow → List String
picked state before [] = []
picked state before (r ∷ rows) =
    let rest = picked state before rows in
    if is_picked state before r then r.job_id ∷ rest else rest

-- The rows that are not picked, in order.
unfoldable pub unpicked : String → ℕ → List JobRow → List JobRow
unpicked state before [] = []
unpicked state before (r ∷ rows) =
    let rest = unpicked state before rows in if is_picked state before r then rest else r ∷ rest

-- A call leaves every row that is not picked.
pub unpicked-split_picked :
    (state : String) (before n : ℕ) (rows : List JobRow)
    → unpicked state before (split_picked state before n rows).1 ≡ unpicked state before rows
unfolding unpicked split_picked
unpicked-split_picked state before zero rows = refl
unpicked-split_picked state before (suc n) [] = refl
unpicked-split_picked state before (suc n) (r ∷ rows) =
    elim (Bool-cases (is_picked state before r)) [
      | inl p ↦ rw p (unpicked-split_picked state before n rows)
      | inr p ↦ rw p (rw p (ap (λ l. r ∷ l) (unpicked-split_picked state before (suc n) rows)))
    ]

-- Where none is picked, all are unpicked.
pub unpicked-all :
    (state : String) (before : ℕ) (rows : List JobRow)
    → picked state before rows ≡ []
    → unpicked state before rows ≡ rows
unfolding picked unpicked
unpicked-all state before [] h = refl
unpicked-all state before (r ∷ rows) h = elim (Bool-cases (is_picked state before r)) [
  | inl p ↦ absurd (ground (arith, h, p))
  | inr p ↦
      let rest : picked state before rows ≡ [] = ground (arith, h, p) in
      rw p (ap (λ l. r ∷ l) (unpicked-all state before rows rest))
]

pub picked-split_picked :
    (state : String) (before n : ℕ) (rows : List JobRow)
    → picked state before rows
      ≡ (split_picked state before n rows).0
        ++ picked state before (split_picked state before n rows).1
unfolding picked split_picked
picked-split_picked state before zero rows = refl
picked-split_picked state before (suc n) [] = refl
picked-split_picked state before (suc n) (r ∷ rows) = elim (Bool-cases (is_picked state before r)) [
  | inl p ↦ rw p (ap (λ l. r.job_id ∷ l) (picked-split_picked state before n rows))
  | inr p ↦ rw p (rw p (picked-split_picked state before (suc n) rows))
]

-- Which rows go, with their ids, and which ones stay: those go that are in the state, not the next job of
-- a scheduler, and no younger than the time.
pub data Parts (state : String) (before : ℕ)
    : List JobRow → List String → List JobRow → Type 0 where
  no_rows : Parts state before [] [] []
  goes :
      {rows rest : List JobRow} {ids : List String} (r : JobRow)
      → r.state ≡ state
      → r.scheduled ≡ false
      → r.since ≤ before
      → Parts state before rows ids rest
      → Parts state before (r ∷ rows) (r.job_id ∷ ids) rest
  stays :
      {rows rest : List JobRow} {ids : List String} (r : JobRow)
      → ((r.state ≢ state) ⊎ ((r.scheduled ≡ true) ⊎ (before < r.since)))
      → Parts state before rows ids rest
      → Parts state before (r ∷ rows) ids (r ∷ rest)

pub is_picked-true :
    (state : String) (before : ℕ) (r : JobRow)
    → is_picked state before r ≡ true
    → (r.state ≡ state) × (r.scheduled ≡ false) × (r.since ≤ before)
unfolding is_picked
is_picked-true state before r p = ground (arith, eq_iff r.state state)

pub is_picked-false :
    (state : String) (before : ℕ) (r : JobRow)
    → is_picked state before r ≡ false
    → (r.state ≢ state) ⊎ ((r.scheduled ≡ true) ⊎ (before < r.since))
unfolding is_picked
is_picked-false state before r p = ground (arith, eq_iff r.state state)

pub picked-Parts :
    (state : String) (before : ℕ) (rows : List JobRow)
    → Parts state before rows (picked state before rows) (unpicked state before rows)
unfolding picked unpicked
picked-Parts state before [] = no_rows
picked-Parts state before (r ∷ rows) = elim (Bool-cases (is_picked state before r)) [
  | inl p ↦
      let (s, n, o) = is_picked-true state before r p in
      rw p (goes r s n o (picked-Parts state before rows))
  | inr p ↦ rw p (stays r (is_picked-false state before r p) (picked-Parts state before rows))
]

-- Where fewer than `n` are taken, none is left.
pub picked-rest :
    (state : String) (before n : ℕ) (rows : List JobRow)
    → length (split_picked state before n rows).0 < n
    → picked state before (split_picked state before n rows).1 ≡ []
unfolding picked split_picked
picked-rest state before zero rows l = ground arith
picked-rest state before (suc n) [] l = refl
picked-rest state before (suc n) (r ∷ rows) l = elim (Bool-cases (is_picked state before r)) [
  | inl p ↦
      let taken : length (split_picked state before (suc n) (r ∷ rows)).0
          ≡ suc (length (split_picked state before n rows).0) =
        rw p refl in
      rw p (picked-rest state before n rows (omega (arith, l, taken)))
  | inr p ↦
      let left : length (split_picked state before (suc n) (r ∷ rows)).0
          ≡ length (split_picked state before (suc n) rows).0 =
        rw p refl in
      rw p (rw p (picked-rest state before (suc n) rows (omega (arith, l, left))))
]
