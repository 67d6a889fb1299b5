-- ===== src/ChildPool/Places.antt =====
-- Where a child stands in the pool of src/classes/child-pool.ts.
use elephantmq.Base.{
  ◌<◌, none, ◌+◌, List, elem, [], ◌≡◌, some, String, if◌then◌else◌, ◌∷◌, arith, remove, true, ◌≤◌,
  refl, str_eq, suc, ℕ, ◌==◌, ◌++◌, false, inr, Option, inl, Option-cases, Bool-cases, Bool, subst,
  eq_iff, eq_refl, ◌⊎◌, ◌∙◌, sym,
}
use elephantmq.ChildPool.{get_free, or_none, at_pid, ChildPool, set_free, pop, dropped, assigned}
use elephantmq.Base.Maps.{get-set}

-- How often a child stands in a list.
unfoldable pub count : ℕ → List ℕ → ℕ
count c [] = 0
count c (x ∷ xs) = let rest = count c xs in if x == c then suc rest else rest

pub count-append : (c : ℕ) (xs ys : List ℕ) → count c (xs ++ ys) ≡ count c xs + count c ys
unfolding count
count-append c [] ys = omega arith
count-append c (x ∷ xs) ys = ground (arith, count-append c xs ys)

pub count-push :
    (d c : ℕ) (xs : List ℕ) → count d (xs ++ c ∷ []) ≡ count d xs + (if c == d then 1 else 0)
unfolding count
count-push d c xs = count-append d xs (c ∷ []) ∙ ground arith

pub elem-push :
    (d c : ℕ) (xs : List ℕ) → elem d (xs ++ c ∷ []) ≡ true → (elem d xs ≡ true) ⊎ (c ≡ d)
elem-push d c [] h = ground (arith, h)
elem-push d c (x ∷ xs) h = ground (arith, h, elem-push d c xs)

pub count-popped : (d c : ℕ) (xs ys : List ℕ) → xs ≡ ys ++ c ∷ [] → count d ys ≤ count d xs
count-popped d c xs ys e =
    subst (λ zs. count d ys ≤ count d zs) (sym e) (omega (arith, count-append d ys (c ∷ [])))

pub elem-last : (c : ℕ) (xs : List ℕ) → elem c (xs ++ c ∷ []) ≡ true
elem-last c [] = ground arith
elem-last c (x ∷ xs) = ground (arith, elem-last c xs)

pub count-remove : (c d : ℕ) (xs : List ℕ) → count c (remove d xs) ≤ count c xs
unfolding count
count-remove c d [] = omega arith
count-remove c d (x ∷ xs) = ground (arith, count-remove c d xs)

pub elem-count : (c : ℕ) (xs : List ℕ) → 0 < count c xs → elem c xs ≡ true
unfolding count
elem-count c [] h = absurd (omega (arith, h))
elem-count c (x ∷ xs) h = ground (arith, elem-count c xs)

pub count-elem : (c : ℕ) (xs : List ℕ) → elem c xs ≡ true → 0 < count c xs
unfolding count
count-elem c [] h = cc
count-elem c (x ∷ xs) h = ground (arith, count-elem c xs)

pub pop-append : (xs : List ℕ) (c : ℕ) → pop (xs ++ c ∷ []) ≡ some (xs, c)
unfolding pop
pop-append [] c = refl
pop-append (x ∷ xs) c = rw (pop-append xs c) refl

pop-nothing : (xs : List ℕ) → pop xs ≡ none → xs ≡ []
unfolding pop
pop-nothing [] h = refl
pop-nothing (x ∷ xs) h = elim (Option-cases (pop xs)) [
  | inl e ↦ ground (arith, h, e)
  | inr ((zs, z), e) ↦ ground (arith, h, e)
]

pub pop-some : (xs ys : List ℕ) (c : ℕ) → pop xs ≡ some (ys, c) → xs ≡ ys ++ c ∷ []
unfolding pop
pop-some [] ys c h = cc
pop-some (x ∷ xs) ys c h = elim (Option-cases (pop xs)) [
  | inl e ↦ ground (arith, h, e, pop-nothing xs)
  | inr ((zs, z), e) ↦ ground (arith, h, e, pop-some xs zs z e)
]

at_pid-dropped :
    (k p : ℕ) (m : List (ℕ × ℕ)) → at_pid k (dropped p m) ≡ (if p == k then none else at_pid k m)
unfolding at_pid dropped
at_pid-dropped k p [] = ground arith
at_pid-dropped k p ((i, c) ∷ m) = ground (arith, at_pid-dropped k p m)

pub get_free-set_free :
    (g f : String) (cs : List ℕ) (q : ChildPool)
    → get_free g (set_free f cs q) ≡ (if str_eq f g then cs else get_free g q)
unfolding get_free set_free or_none
get_free-set_free g f cs q =
    rw (get-set f g cs q.free)
      (elim (Bool-cases (str_eq f g)) [ inl e ↦ rw e refl | inr e ↦ rw e refl ])

-- Whether an entry is the child, and whether the entry under the child's pid is.
unfoldable pub is_child : ℕ → Option ℕ → Bool
is_child c none = false
is_child c (some d) = d == c

unfoldable pub is_under : ℕ → Option ℕ → List (ℕ × ℕ) → Bool
unfolding is_child at_pid
is_under c none m = false
is_under c (some p) m = is_child c (at_pid p m)

abbrev pub one_if : Bool → ℕ
one_if b = if b then 1 else 0

pub one_if_le : (b : Bool) → one_if b ≤ 1
one_if_le b = ground arith

pub is_under-dropped :
    (c : ℕ) (k : Option ℕ) (p : ℕ) (m : List (ℕ × ℕ))
    → one_if (is_under c k (dropped p m)) ≤ one_if (is_under c k m)
unfolding is_under is_child
is_under-dropped c none p m = omega arith
is_under-dropped c (some k) p m = rw (at_pid-dropped k p m) (ground arith)

pub is_under-dropped_self : (c p : ℕ) (m : List (ℕ × ℕ)) → is_under c (some p) (dropped p m) ≡ false
unfolding is_under is_child
is_under-dropped_self c p m = rw (at_pid-dropped p p m) (ground arith)

pub is_under-assigned : (c p : ℕ) (m : List (ℕ × ℕ)) → is_under c (some p) (assigned p c m) ≡ true
unfolding is_under assigned at_pid is_child
is_under-assigned c p m = ground arith

pub is_under-assigned_other :
    (d c p : ℕ) (k : Option ℕ) (m : List (ℕ × ℕ))
    → (c == d) ≡ false
    → one_if (is_under d k (assigned p c m)) ≤ one_if (is_under d k m)
unfolding is_under assigned at_pid is_child
is_under-assigned_other d c p none m n = omega arith
is_under-assigned_other d c p (some k) m n = rw (at_pid-dropped k p m) (ground (arith, n))

module _ (process_file : ℕ → String) (pid : ℕ → Option ℕ) where
  abbrev pub is_retained : ℕ → ChildPool → Bool
  is_retained c q = is_under c (pid c) q.retained

  -- In how many places a child stands.
  unfoldable pub places : ℕ → ChildPool → ℕ
  unfolding is_under count get_free
  places c q = one_if (is_retained c q) + count c (get_free (process_file c) q)

  pub count-set_free :
      (d : ℕ) (f : String) (cs : List ℕ) (n : ℕ) (q : ChildPool)
      → count d cs ≤ n + count d (get_free f q)
      → count d (get_free (process_file d) (set_free f cs q))
        ≤ n + count d (get_free (process_file d) q)
  count-set_free d f cs n q h =
      rw (get_free-set_free (process_file d) f cs q)
        (elim (Bool-cases (str_eq f (process_file d))) [
          | inl e ↦ rw e (subst (λ g. count d cs ≤ n + count d (get_free g q)) ((eq_iff _ _).0 e) h)
          | inr e ↦ rw e (omega arith)
        ])

  pub count-set_free_self :
      (c : ℕ) (cs : List ℕ) (q : ChildPool)
      → count c (get_free (process_file c) (set_free (process_file c) cs q)) ≡ count c cs
  count-set_free_self c cs q =
      rw (get_free-set_free (process_file c) (process_file c) cs q, eq_refl (process_file c)) refl
