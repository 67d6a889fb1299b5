-- ===== src/Enqueue/Rules.antt =====
-- What the validation lets pass (src/classes/job/job-enqueue-validation.ts).
use elephantmq.Base.{
  ◌⊎◌, Bool, ◌≤◌, refl, ◌≡◌, false, none, [], some, ◌≢◌, Option, List, ℕ, ◌∷◌, ◌++◌, ◌^◌,
}
use elephantmq.Base.Int.{negsuc, pos}
use elephantmq.Enqueue.{EnqueueError, EnqueueOptions, validate, whole, Jitter, Priority, float}
use elephantmq.Keys.{Text}

abbrev NoneHolds : List (Bool × EnqueueError) → Type 0
NoneHolds [] = Unit {0}
NoneHolds ((b, e) ∷ rest) = (b ≡ false) × NoneHolds rest

-- No two of the flags are set.
abbrev pub NoneSet : List Bool → Type 0
NoneSet [] = Unit {0}
NoneSet (b ∷ bs) = (b ≡ false) × NoneSet bs

abbrev pub NoTwoSet : List Bool → Type 0
NoTwoSet [] = Unit {0}
NoTwoSet (b ∷ bs) = ((b ≡ false) ⊎ NoneSet bs) × NoTwoSet bs

-- No colon in a text, and a text of three parts between two colons.
abbrev pub NoColon : Text → Type 0
NoColon [] = Unit {0}
NoColon (c ∷ cs) = (c ≢ b':') × NoColon cs

abbrev pub ThreeParts : Text → Type 0
ThreeParts id =
    (a : Text) × (b : Text) × (c : Text) × (id ≡ a ++ b':' ∷ (b ++ b':' ∷ c))
    × NoColon a
    × NoColon b
    × NoColon c

-- A priority is none, negative, or a whole number up to 2 ^ 21.
abbrev pub Allowed : Option Priority → Type 0
Allowed none = Unit {0}
Allowed (some float) = ⊥
Allowed (some (whole (pos n))) = n ≤ 2 ^ 21
Allowed (some (whole (negsuc n))) = Unit {0}

-- A jitter is none, or a fraction that is neither negative nor above 1.
abbrev pub Proper : Option Jitter → Type 0
Proper none = Unit {0}
Proper (some j) = elim j.num [ pos n ↦ n ≤ j.den | negsuc n ↦ ⊥ ]

-- A negative priority is let through, whichever it is: the validation answers as for a job without a
-- priority.
validate-negative :
    (is_integer_text : Text → Bool) (o : EnqueueOptions) (job_data parent_key : Text) (n : ℕ)
    → validate is_integer_text (record o { priority = some (whole (negsuc n)) }) job_data parent_key
      ≡ validate is_integer_text (record o { priority = none }) job_data parent_key
unfolding validate
validate-negative is_integer_text o job_data parent_key n = refl
