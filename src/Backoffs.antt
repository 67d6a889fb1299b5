-- ===== src/Backoffs.antt =====
-- src/classes/backoffs.ts: the delay before a failed job is tried again. Durations are whole
-- milliseconds; a jitter factor and the value of Math.random are fractions, and the products that
-- the source computes in doubles are exact.
pub mod Bounds
pub mod Tests
use elephantmq.Base.{
  ℕ, zero, suc, ◌+◌, ◌*◌, ◌/◌, ◌^◌, Bool, true, false, ◌||◌, Option, none, some, List, [], ◌∷◌, ltb,
  if◌then◌else◌, String, str_eq, Result, ok, err,
}
use elephantmq.Base.Int.{ℤ, pos, sub_ℕ, floor_div}

pub record Fraction : Type 0 where
  pub num : ℕ
  pub den : ℕ

pub record BackoffOptions : Type 0 where
  pub kind : String
  pub delay : Option ℕ
  pub jitter : Option Fraction

-- The JavaScript values that a strategy returns.
pub data Value : Type 0 where
  undefined nan : Value
  number : ℤ → Value

pub data BackoffError : Type 0 where
  unknown_strategy type_error : BackoffError

-- The option as callers give it: a finite number, or an object.
pub data BackoffInput : Type 0 where
  finite : ℕ → BackoffInput
  options : BackoffOptions → BackoffInput

-- `Math.floor(Math.random() * top * jitter + top * (1 - jitter))`, over one denominator.
jittered : Fraction → Fraction → ℕ → ℤ
jittered random jitter top =
    floor_div
      (sub_ℕ (random.num * top * jitter.num + random.den * top * jitter.den)
        (random.den * top * jitter.num))
      (random.den * jitter.den)

-- `Math.round(Math.pow(2, attemptsMade - 1) * delay)`
pub doubled : ℕ → ℕ → ℕ
doubled zero delay = (delay + 1) / 2
doubled (suc n) delay = 2 ^ n * delay

abbrev jitter_or_zero : Option Fraction → Fraction
jitter_or_zero none = record { num = 0; den = 1 }
jitter_or_zero (some j) = j

unfoldable pub fixed : Fraction → Option ℕ → Fraction → Value
unfolding jittered
fixed random none jitter = if ltb 0 jitter.num then nan else undefined
fixed random (some delay) jitter =
    if ltb 0 jitter.num then number (jittered random jitter delay) else number (pos delay)

pub exponential : Fraction → Option ℕ → Fraction → ℕ → Value
unfolding jittered doubled
exponential random none jitter attempts = nan
exponential random (some delay) jitter attempts =
    if ltb 0 jitter.num
    then number (jittered random jitter (doubled attempts delay))
    else number (pos (doubled attempts delay))

pub normalize : BackoffInput → BackoffOptions
normalize (finite delay) = record { kind = "fixed"; delay = some delay; jitter = none }
normalize (options o) = o

-- The names for which `in` also holds of an object literal. What stands there is no strategy, and
-- to call it, or its result, throws a TypeError.
abbrev inherited : List String
inherited =
    "constructor" ∷ "toString" ∷ "valueOf" ∷ "toLocaleString" ∷ "hasOwnProperty" ∷ "isPrototypeOf"
    ∷ "propertyIsEnumerable" ∷ "__proto__" ∷ "__defineGetter__" ∷ "__defineSetter__"
    ∷ "__lookupGetter__" ∷ "__lookupSetter__" ∷ []

abbrev is_listed : String → List String → Bool
is_listed s [] = false
is_listed s (x ∷ xs) = str_eq s x || is_listed s xs

-- `Err` and `Job` are what a custom strategy is handed beside the attempt and the type.
abbrev pub Strategy : Type 0 → Type 0 → Type 0
Strategy Err Job = ℕ → String → Err → Job → Value

module _ {Err Job : Type 0} (random : Fraction) where
  pub lookup_strategy :
      BackoffOptions → Option (Strategy Err Job) → Result BackoffError (Strategy Err Job)
  lookup_strategy backoff custom =
      if str_eq backoff.kind "fixed"
      then ok (λ _ _ _ _. fixed random backoff.delay (jitter_or_zero backoff.jitter))
      else if str_eq backoff.kind "exponential"
      then ok (λ attempts _ _ _.
        exponential random backoff.delay (jitter_or_zero backoff.jitter) attempts)
      else if is_listed backoff.kind inherited
      then err type_error
      else elim custom [ none ↦ err unknown_strategy | some strategy ↦ ok strategy ]

  unfoldable pub calculate :
      Option BackoffOptions → ℕ → Err → Job → Option (Strategy Err Job) → Result BackoffError Value
  unfolding lookup_strategy
  calculate none attempts failure job custom = ok undefined
  calculate (some backoff) attempts failure job custom = elim (lookup_strategy backoff custom) [
    | err e ↦ err e
    | ok strategy ↦ ok (strategy attempts backoff.kind failure job)
  ]
