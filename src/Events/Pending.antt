-- ===== src/Events/Pending.antt =====
-- The rows that a consumer of src/classes/queue-events.ts has not seen yet.
use elephantmq.Base.{
  ap, filter_by, ltb, ◌∷◌, take, ℕ, false, sym, zero, drop, Bool-cases, if◌then◌else◌, refl, ◌∙◌,
  ◌++◌, ◌≡◌, inr, inl, ◌≤◌, arith, true, List, suc, max, ◌<◌, [], leb, ◌||◌, Bool,
}
use elephantmq.Events.{EventRow, last_of}

-- The rows stand in the order of their ids, from a first one on.
abbrev pub Ascending : ℕ → List EventRow → Type 0
Ascending low [] = Unit {0}
Ascending low (r ∷ rs) = (low ≤ r.id) × Ascending (suc r.id) rs

abbrev pub pending : ℕ → List EventRow → List EventRow
pending last rows = filter_by (λ r. ltb last r.id) rows

pub pending-append :
    (l : ℕ) (rs ss : List EventRow) → pending l (rs ++ ss) ≡ pending l rs ++ pending l ss
pending-append l [] ss = refl
pending-append l (r ∷ rs) ss = elim (Bool-cases (ltb l r.id)) [
  | inl h ↦ rw h (ap (◌∷◌ r) (pending-append l rs ss))
  | inr h ↦ rw h (pending-append l rs ss)
]

pub pending-pending :
    (l x : ℕ) (rs : List EventRow) → l ≤ x → pending x (pending l rs) ≡ pending x rs
pending-pending l x [] h = refl
pending-pending l x (r ∷ rs) h = elim (Bool-cases (ltb l r.id)) [
  | inl k ↦ rw k (ap (λ ss. if ltb x r.id then r ∷ ss else ss) (pending-pending l x rs h))
  | inr k ↦
      let out : ltb x r.id ≡ false = ground (arith, k, h) in rw (k, out) (pending-pending l x rs h)
]

pending-all : (l low : ℕ) (rs : List EventRow) → Ascending low rs → l < low → pending l rs ≡ rs
pending-all l low [] a h = refl
pending-all l low (r ∷ rs) a h =
    let k : ltb l r.id ≡ true = ground (arith, a.0, h) in
    rw k (ap (◌∷◌ r) (pending-all l (suc r.id) rs a.1 (omega (arith, a.0, h))))

Ascending-lower :
    (low low' : ℕ) (rs : List EventRow) → low' ≤ low → Ascending low rs → Ascending low' rs
Ascending-lower low low' [] h a = tt
Ascending-lower low low' (r ∷ rs) h a = (omega (arith, h, a.0), a.1)

pub Ascending-filter :
    (l low : ℕ) (rs : List EventRow) → Ascending low rs → Ascending low (pending l rs)
Ascending-filter l low [] a = tt
Ascending-filter l low (r ∷ rs) a = elim (Bool-cases (ltb l r.id)) [
  | inl k ↦ rw k (a.0, Ascending-filter l (suc r.id) rs a.1)
  | inr k ↦ rw k (
      Ascending-lower (suc r.id) low (pending l rs) (omega (arith, a.0))
        (Ascending-filter l (suc r.id) rs a.1))
]

pub Ascending-pending :
    (l low : ℕ) (rs : List EventRow) → Ascending low rs → Ascending (suc l) (pending l rs)
Ascending-pending l low [] a = tt
Ascending-pending l low (r ∷ rs) a = elim (Bool-cases (ltb l r.id)) [
  | inl k ↦ rw k (ground (arith, k), Ascending-filter l (suc r.id) rs a.1)
  | inr k ↦ rw k (Ascending-pending l (suc r.id) rs a.1)
]

pub last_of-ge : (l n : ℕ) (rs : List EventRow) → Ascending (suc l) rs → l ≤ last_of l (take n rs)
last_of-ge l zero rs a = omega arith
last_of-ge l (suc n) [] a = omega arith
last_of-ge l (suc n) (r ∷ rs) a = omega (arith, a.0, last_of-ge r.id n rs a.1)

pending-taken_from :
    (l n : ℕ) (rs : List EventRow)
    → Ascending (suc l) rs
    → pending (last_of l (take n rs)) rs ≡ drop n rs
pending-taken_from l zero rs a = pending-all l (suc l) rs a (omega arith)
pending-taken_from l (suc n) [] a = refl
pending-taken_from l (suc n) (r ∷ rs) a =
    let out : ltb (last_of r.id (take n rs)) r.id ≡ false =
      ground (arith, last_of-ge r.id n rs a.1) in
    rw out (pending-taken_from r.id n rs a.1)

-- Behind the first n of them the others are pending.
pub pending-taken :
    (l n low : ℕ) (rs : List EventRow)
    → Ascending low rs
    → pending (last_of l (take n (pending l rs))) rs ≡ drop n (pending l rs)
pending-taken l n low rs a =
    let p = Ascending-pending l low rs a in
    sym (pending-pending l _ rs (last_of-ge l n (pending l rs) p))
    ∙ pending-taken_from l n (pending l rs) p

pub last_of-le : (l : ℕ) (rs : List EventRow) → Ascending (suc l) rs → l ≤ last_of l rs
last_of-le l [] a = omega arith
last_of-le l (r ∷ rs) a = omega (arith, a.0, last_of-le r.id rs a.1)

pub last_of-bounded :
    (l m n low : ℕ) (rs : List EventRow)
    → Ascending (suc low) rs
    → last_of l (take n (pending m rs)) ≤ max l (last_of low rs)
last_of-bounded l m zero low rs a = omega arith
last_of-bounded l m (suc n) low [] a = omega arith
last_of-bounded l m (suc n) low (r ∷ rs) a = elim (Bool-cases (ltb m r.id)) [
  | inl k ↦ rw k (omega (arith, last_of-bounded r.id m n r.id rs a.1, last_of-le r.id rs a.1))
  | inr k ↦ rw k (last_of-bounded l m (suc n) r.id rs a.1)
]

pub Ascending-rest :
    (low : ℕ) (rs ss : List EventRow)
    → Ascending (suc low) (rs ++ ss)
    → Ascending (suc (last_of low rs)) ss
Ascending-rest low [] ss a = a
Ascending-rest low (r ∷ rs) ss a = Ascending-rest r.id rs ss a.1

pub last_of-append :
    (low : ℕ) (rs ss : List EventRow) → last_of low (rs ++ ss) ≡ last_of (last_of low rs) ss
last_of-append low [] ss = refl
last_of-append low (r ∷ rs) ss = last_of-append r.id rs ss

-- Rows behind all others are pending for the one id as for the other.
pub pending-new :
    (start last top low : ℕ) (rs : List EventRow)
    → Ascending low rs
    → top < low
    → start ≤ last
    → last ≤ max start top
    → pending last rs ≡ pending start rs
pending-new start last top low [] a h s b = refl
pending-new start last top low (r ∷ rs) a h s b =
    let same : ltb last r.id ≡ ltb start r.id = ground (arith, a.0, h, s, b) in
    let rest = pending-new start last top (suc r.id) rs a.1 (omega (arith, a.0, h)) s b in
    rw (same, rest) refl

-- No row has an id above this one.
abbrev pub AtMost : ℕ → List EventRow → Type 0
AtMost top [] = Unit {0}
AtMost top (r ∷ rs) = (r.id ≤ top) × AtMost top rs

pub AtMost-higher : (low top : ℕ) (rs : List EventRow) → low ≤ top → AtMost low rs → AtMost top rs
AtMost-higher low top [] h a = tt
AtMost-higher low top (r ∷ rs) h a = (omega (arith, a.0, h), AtMost-higher low top rs h a.1)

pub AtMost-append :
    (top : ℕ) (rs ss : List EventRow) → AtMost top rs → AtMost top ss → AtMost top (rs ++ ss)
AtMost-append top [] ss a b = b
AtMost-append top (r ∷ rs) ss a b = (a.0, AtMost-append top rs ss a.1 b)

pub AtMost-pending : (top l : ℕ) (rs : List EventRow) → AtMost top rs → AtMost top (pending l rs)
AtMost-pending top l [] a = tt
AtMost-pending top l (r ∷ rs) a = elim (Bool-cases (ltb l r.id)) [
  | inl k ↦ rw k (a.0, AtMost-pending top l rs a.1)
  | inr k ↦ rw k (AtMost-pending top l rs a.1)
]

-- Rows in order are at most the last of them.
pub AtMost-take :
    (l n : ℕ) (rs : List EventRow)
    → Ascending (suc l) rs
    → AtMost (last_of l (take n rs)) (take n rs)
AtMost-take l zero rs a = tt
AtMost-take l (suc n) [] a = tt
AtMost-take l (suc n) (r ∷ rs) a = (last_of-ge r.id n rs a.1, AtMost-take r.id n rs a.1)

pub AtMost-last_of : (l : ℕ) (rs : List EventRow) → Ascending (suc l) rs → AtMost (last_of l rs) rs
AtMost-last_of l [] a = tt
AtMost-last_of l (r ∷ rs) a = (last_of-le r.id rs a.1, AtMost-last_of r.id rs a.1)

pub last_of-AtMost :
    (top l n : ℕ) (rs : List EventRow) → AtMost top rs → last_of l (take n rs) ≤ max l top
last_of-AtMost top l zero rs a = omega arith
last_of-AtMost top l (suc n) [] a = omega arith
last_of-AtMost top l (suc n) (r ∷ rs) a = omega (arith, a.0, last_of-AtMost top r.id n rs a.1)

pub Ascending-append :
    (low top : ℕ) (rs ss : List EventRow)
    → Ascending low rs
    → AtMost top rs
    → low ≤ suc top
    → Ascending (suc top) ss
    → Ascending low (rs ++ ss)
Ascending-append low top [] ss a m h b = Ascending-lower (suc top) low ss h b
Ascending-append low top (r ∷ rs) ss a m h b =
    (a.0, Ascending-append (suc r.id) top rs ss a.1 m.1 (omega (arith, m.0)) b)

-- The rows up to one id, and those behind another.
unfoldable pub survivors : ℕ → ℕ → List EventRow → List EventRow
survivors last cut rows = filter_by (λ r. leb r.id last || ltb cut r.id) rows

pub survivors-append :
    (last cut : ℕ) (rs ss : List EventRow)
    → survivors last cut (rs ++ ss) ≡ survivors last cut rs ++ survivors last cut ss
unfolding survivors
survivors-append last cut [] ss = refl
survivors-append last cut (r ∷ rs) ss = elim (Bool-cases (leb r.id last || ltb cut r.id)) [
  | inl h ↦ rw h (ap (◌∷◌ r) (survivors-append last cut rs ss))
  | inr h ↦ rw h (survivors-append last cut rs ss)
]

-- What was read survives.
pub survivors-read :
    (last cut : ℕ) (rs : List EventRow) → AtMost last rs → survivors last cut rs ≡ rs
unfolding survivors
survivors-read last cut [] a = refl
survivors-read last cut (r ∷ rs) a =
    let k : (leb r.id last || ltb cut r.id) ≡ true = ground (arith, a.0) in
    rw k (ap (◌∷◌ r) (survivors-read last cut rs a.1))

kept-in :
    (f : EventRow → Bool) (r : EventRow) (rs : List EventRow)
    → f r ≡ true
    → filter_by f (r ∷ rs) ≡ r ∷ filter_by f rs
kept-in f r rs h = rw h refl

kept-out :
    (f : EventRow → Bool) (r : EventRow) (rs : List EventRow)
    → f r ≡ false
    → filter_by f (r ∷ rs) ≡ filter_by f rs
kept-out f r rs h = rw h refl

-- What was not read survives where it is not deleted.
pub survivors-pending :
    (last cut : ℕ) (rs : List EventRow)
    → survivors last cut (pending last rs) ≡ pending last (pending cut rs)
unfolding survivors
survivors-pending last cut [] = refl
survivors-pending last cut (r ∷ rs) =
    let unread : EventRow → Bool = λ x. ltb last x.id in
    let left : EventRow → Bool = λ x. ltb cut x.id in
    let stays : EventRow → Bool = λ x. leb x.id last || ltb cut x.id in
    let ih = survivors-pending last cut rs in
    elim (Bool-cases (ltb last r.id)) [
      | inl k ↦ elim (Bool-cases (ltb cut r.id)) [
        | inl c ↦
            ap (filter_by stays) (kept-in unread r rs k)
            ∙ kept-in stays r (filter_by unread rs) (ground (arith, c))
            ∙ ap (◌∷◌ r) ih
            ∙ sym (
                ap (filter_by unread) (kept-in left r rs c)
                ∙ kept-in unread r (filter_by left rs) k)
        | inr c ↦
            ap (filter_by stays) (kept-in unread r rs k)
            ∙ kept-out stays r (filter_by unread rs) (ground (arith, c, k))
            ∙ ih
            ∙ sym (ap (filter_by unread) (kept-out left r rs c))
      ]
      | inr k ↦ elim (Bool-cases (ltb cut r.id)) [
        | inl c ↦
            ap (filter_by stays) (kept-out unread r rs k)
            ∙ ih
            ∙ sym (
                ap (filter_by unread) (kept-in left r rs c)
                ∙ kept-out unread r (filter_by left rs) k)
        | inr c ↦
            ap (filter_by stays) (kept-out unread r rs k)
            ∙ ih
            ∙ sym (ap (filter_by unread) (kept-out left r rs c))
      ]
    ]
