-- ===== src/Locks/Renewal.antt =====
-- When the lock manager renews a job's lock (src/classes/lock-manager.ts).
use mathlib.Core.Option.{some-injective}
use elephantmq.Base.{
  ◌∙◌, List, ◌≤◌, some, String, str_eq, ◌↔◌, none, false, inl, ◌∷◌, ◌+◌, ℕ, ◌<◌, inr, ◌≡◌, ◌*◌,
  true, arith, [], Bool-cases, refl, sym, Bool, ap, eq_iff, Option-cases, Option,
}
use elephantmq.Locks.{stamp_all, Tracked, is_due, jobs_to_extend, needs_extension, stamp, mem}
use elephantmq.Base.Maps.{Unique, get}

-- What one firing of the timer does with the stamp of a tracked job.
pub get-stamp_all :
    (renew now : ℕ) (j : String) (m : List (String × Tracked))
    → get j (stamp_all renew now m)
      ≡ elim (get j m) [ none ↦ none | some t ↦ some (stamp renew now t) ]
unfolding get stamp_all
get-stamp_all renew now j [] = refl
get-stamp_all renew now j ((i, t) ∷ m) = elim (Bool-cases (str_eq i j)) [
  | inl same ↦ rw same
  | inr other ↦ rw other (get-stamp_all renew now j m)
]

pub stamp_all-Unique :
    (renew now : ℕ) (m : List (String × Tracked)) → Unique m → Unique (stamp_all renew now m)
unfolding stamp_all
stamp_all-Unique renew now [] u = tt
stamp_all-Unique renew now ((i, t) ∷ m) u =
    (get-stamp_all renew now i m ∙ rw (u.0), stamp_all-Unique renew now m u.1)

jobs_to_extend-none :
    (renew now : ℕ) (j : String) (m : List (String × Tracked))
    → get j m ≡ none
    → mem j (jobs_to_extend renew now m) ≡ false
unfolding get jobs_to_extend
jobs_to_extend-none renew now j [] h = refl
jobs_to_extend-none renew now j ((i, t) ∷ m) h = ground (arith, jobs_to_extend-none renew now j m)

abbrev pub is_extended : ℕ → ℕ → Option Tracked → Bool
is_extended renew now none = false
is_extended renew now (some t) = needs_extension renew now t

pub mem-jobs_to_extend :
    (renew now : ℕ) (j : String) (m : List (String × Tracked))
    → Unique m
    → mem j (jobs_to_extend renew now m) ≡ is_extended renew now (get j m)
unfolding get jobs_to_extend
mem-jobs_to_extend renew now j [] u = refl
mem-jobs_to_extend renew now j ((i, t) ∷ m) u = elim (Bool-cases (str_eq i j)) [
  | inl same ↦
      let e : i ≡ j = (eq_iff i j).0 same in
      let gone = jobs_to_extend-none renew now j m (ap (λ k. get k m) (sym e) ∙ u.0) in ground arith
  | inr other ↦ ground (arith, mem-jobs_to_extend renew now j m u.1)
]

needs_extension_iff :
    (renew now : ℕ) (t : Tracked)
    → (needs_extension renew now t ≡ true) ↔ ((0 < t.ts) × (2 * t.ts + renew < 2 * now))
unfolding needs_extension is_due
needs_extension_iff renew now t = ground arith

-- Among jobs that are tracked once each, the timer extends the locks of those, and only those, whose
-- last stamp is set and lies more than half the renew time back.
pub jobs_to_extend_iff :
    (renew now : ℕ) (j : String) (m : List (String × Tracked))
    → Unique m
    → (mem j (jobs_to_extend renew now m) ≡ true)
      ↔ ((t : Tracked) × (get j m ≡ some t) × (0 < t.ts) × (2 * t.ts + renew < 2 * now))
jobs_to_extend_iff renew now j m u = elim (Option-cases (get j m)) [
  | inl untracked ↦
      let e = mem-jobs_to_extend renew now j m u ∙ ap (is_extended renew now) untracked in
      (λ h. absurd (ground arith), λ (t, g, p, d). absurd (ground arith))
  | inr (t, tracked) ↦
      let e = mem-jobs_to_extend renew now j m u ∙ ap (is_extended renew now) tracked in
      (
        λ h. let (p, d) = (needs_extension_iff renew now t).0 (sym e ∙ h) in (t, tracked, p, d),
        λ (s, g, p, d).
            let same : t ≡ s = some-injective _ _ (sym tracked ∙ g) in
            e ∙ (needs_extension_iff renew now t).1 (rw same p, rw same d),
      )
]

-- A tracked lock is renewed in time: if a firing leaves a job out, and the next firing is half a renew
-- time later at most, then at that next firing the lock taken with the stamp has not expired, where
-- locks last at least the renew time.
needs_extension-in_time :
    (renew duration now next : ℕ) (t : Tracked)
    → 0 < t.ts
    → needs_extension renew now t ≡ false
    → 2 * next ≤ 2 * now + renew
    → renew ≤ duration
    → next ≤ t.ts + duration
unfolding needs_extension is_due
needs_extension-in_time renew duration now next t p h s d = ground arith
