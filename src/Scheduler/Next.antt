-- ===== src/Scheduler/Next.antt =====
-- The slots that the job scheduler computes (src/classes/job-scheduler.ts, upsertJobScheduler).
use native.Mathlib.Nat.{div-mul-le_self, lt-div-mul-add}
use mathlib.Core.Option.{some-injective}
use elephantmq.Base.{
  ℕ, ◌<◌, ◌+◌, arith, max, ◌≤◌, false, Bool, some, Option, ◌≡◌, none, true, refl, ◌⊎◌, ◌==◌,
  Bool-cases, if◌then◌else◌, inl, inr, ok, ◌↔◌, err, ◌∙◌, sym, ltb, not, ◌&&◌, Result,
}
use elephantmq.Scheduler.{
  RepeatOptions, Stored, Slot, next_slot, SchedulerError, neither_defined, both_defined,
  both_starts,
}
use elephantmq.Scheduler

-- For a positive period, the worker's advance lies behind the previous slot, not before now, and not
-- beyond one period after the previous slot or, with the offset, after now.
advance_lem :
    (prev every now offset : ℕ)
    → 0 < every
    → (prev < Scheduler.advance prev every now offset)
      × (now ≤ Scheduler.advance prev every now offset)
      × (Scheduler.advance prev every now offset ≤ max (prev + every) (now + every + offset))
unfolding Scheduler.advance
advance_lem prev every now offset p =
    let low = div-mul-le_self now every in let high = lt-div-mul-add {a = now} p in ground arith

first_run-ge : (start : Option ℕ) (now : ℕ) → now ≤ Scheduler.first_run start now
unfolding Scheduler.first_run
first_run-ge none now = omega arith
first_run-ge (some s) now = ground arith

by_pattern-ge : (strategy : ℕ → Option ℕ) (now : ℕ) → now ≤ Scheduler.by_pattern strategy now
unfolding Scheduler.by_pattern
by_pattern-ge strategy now = ground arith

next_every-ge :
    (prev : Option ℕ) (every now : ℕ) (start : Option ℕ) (offset : ℕ)
    → 0 < every
    → now ≤ Scheduler.next_every false prev every now start offset
unfolding Scheduler.next_every
next_every-ge none every now start offset p = first_run-ge start now
next_every-ge (some prev) every now start offset p = (advance_lem prev every now offset p).1

every_slot-ge :
    (st : Stored) (o : RepeatOptions) (now : ℕ) (override : Bool)
    → 0 < o.every
    → now ≤ (Scheduler.every_slot st o now override).next_millis
unfolding Scheduler.every_slot
every_slot-ge st o now true p = ground arith
every_slot-ge st o now false p =
    next_every-ge (Scheduler.effective_prev st o.every) o.every now o.start_date
      (Scheduler.or_zero (Scheduler.effective_offset o.offset st.offset)) p

every_slot-iteration :
    (st : Stored) (o : RepeatOptions) (now : ℕ) (override : Bool)
    → (Scheduler.every_slot st o now override).iteration ≡ o.count + 1
unfolding Scheduler.every_slot
every_slot-iteration st o now override = refl

module _ (strategy : ℕ → Option ℕ) (st : Stored) (o : RepeatOptions) (now : ℕ)
    (override : Bool) where
  slot_at_pattern :
      Scheduler.has_pattern o ≡ true
      → Scheduler.slot_at strategy st o now override ≡ (
          if Scheduler.by_pattern strategy now == 0
          then none
          else some (record {
            next_millis = Scheduler.by_pattern strategy now;
            new_offset = some 0;
            iteration = o.count + 1;
          }))
  unfolding Scheduler.slot_at
  slot_at_pattern by = rw by

  slot_at_period :
      Scheduler.has_pattern o ≡ false
      → Scheduler.slot_at strategy st o now override ≡ some (Scheduler.every_slot st o now override)
  unfolding Scheduler.slot_at
  slot_at_period by = rw by

  slot_at-ge :
      (s : Slot)
      → (Scheduler.has_pattern o ≡ false → 0 < o.every)
      → Scheduler.slot_at strategy st o now override ≡ some s
      → (now ≤ s.next_millis) × (s.iteration ≡ o.count + 1)
  slot_at-ge s x h = elim (Bool-cases (Scheduler.has_pattern o)) [
    | inl by ↦
        let a = by_pattern-ge strategy now in
        let e = sym (slot_at_pattern by) ∙ h in pattern_ge s a e
    | inr by ↦
        let e = some-injective _ _ (sym (slot_at_period by) ∙ h) in
        rw (← e) (every_slot-ge st o now override (x by), every_slot-iteration st o now override)
  ]
    where
      pattern_ge :
          (s : Slot)
          → now ≤ Scheduler.by_pattern strategy now
          → (if Scheduler.by_pattern strategy now == 0
              then none
              else some (record {
                next_millis = Scheduler.by_pattern strategy now;
                new_offset = some 0;
                iteration = o.count + 1;
              }))
            ≡ some s
          → (now ≤ s.next_millis) × (s.iteration ≡ o.count + 1)
      pattern_ge s a e = ground arith

-- The guards of a call over its five tests.
abbrev gated : Bool → Bool → Bool → Bool → Option Slot → Result SchedulerError (Option Slot)
gated pattern every starts finished r =
    if pattern && every
    then err both_defined
    else if not pattern && not every
    then err neither_defined
    else if starts
    then err both_starts
    else if finished
    then ok none
    else ok r

gated-some :
    (pattern every starts finished : Bool) (r : Option Slot) (s : Slot)
    → gated pattern every starts finished r ≡ ok (some s)
    → (pattern ≡ false → every ≡ true) × (r ≡ some s)
gated-some true true starts finished r s h = cc
gated-some true false true finished r s h = cc
gated-some true false false true r s h = cc
gated-some true false false false r s h = (λ e. cc, cc)
gated-some false false starts finished r s h = cc
gated-some false true true finished r s h = cc
gated-some false true false true r s h = cc
gated-some false true false false r s h = (λ e. refl, cc)

gated-err :
    (pattern every starts finished : Bool) (r : Option Slot)
    → ((e : SchedulerError) × (gated pattern every starts finished r ≡ err e))
      ↔ ((pattern ≡ every) ⊎ (starts ≡ true))
gated-err true true starts finished r = (λ h. inl refl, λ h. (both_defined, refl))
gated-err false false starts finished r = (λ h. inl refl, λ h. (neither_defined, refl))
gated-err true false true finished r = (λ h. inr refl, λ h. (both_starts, refl))
gated-err false true true finished r = (λ h. inr refl, λ h. (both_starts, refl))
gated-err true false false finished r =
    (λ (e, h). absurd (ground arith), λ h. absurd (ground arith))
gated-err false true false finished r =
    (λ (e, h). absurd (ground arith), λ h. absurd (ground arith))

-- What a call that computes a slot has passed.
next_slot-passed :
    (strategy : ℕ → Option ℕ) (st : Stored) (o : RepeatOptions) (clock prev_millis : ℕ)
    (override : Bool) (s : Slot)
    → next_slot strategy st o clock prev_millis override ≡ ok (some s)
    → (Scheduler.has_pattern o ≡ false → 0 < o.every)
      × (Scheduler.slot_at strategy st o
            (if ltb prev_millis clock then clock else prev_millis)
            override
          ≡ some s)
unfolding next_slot
next_slot-passed strategy st o clock prev_millis override s h =
    let (every, e) = gated-some (Scheduler.has_pattern o) _ _ _ _ s h in
    (λ p. let q = every p in ground arith, e)

-- Whatever the options, the stored scheduler, the strategy and the caller, a slot is neither before
-- the clock nor before the slot of the job at hand, and its job has the next iteration's number.
next_slot-not_before :
    (strategy : ℕ → Option ℕ) (st : Stored) (o : RepeatOptions) (clock prev_millis : ℕ)
    (override : Bool) (s : Slot)
    → next_slot strategy st o clock prev_millis override ≡ ok (some s)
    → (clock ≤ s.next_millis) × (prev_millis ≤ s.next_millis) × (s.iteration ≡ o.count + 1)
next_slot-not_before strategy st o clock prev_millis override s h =
    let (x, e) = next_slot-passed strategy st o clock prev_millis override s h in
    let b = slot_at-ge strategy st o _ override s x e in ground arith

-- A call throws exactly for options that contradict each other: with a pattern and a period, or
-- neither, or with a start date where it is to run at once.
next_slot-errors :
    (strategy : ℕ → Option ℕ) (st : Stored) (o : RepeatOptions) (clock prev_millis : ℕ)
    (override : Bool)
    → ((e : SchedulerError) × (next_slot strategy st o clock prev_millis override ≡ err e)) ↔ (
        (Scheduler.has_pattern o ≡ Scheduler.has_every o)
        ⊎ ((o.immediately && ltb 0 (Scheduler.or_zero o.start_date)) ≡ true))
unfolding next_slot
next_slot-errors strategy st o clock prev_millis override = gated-err _ _ _ _ _
