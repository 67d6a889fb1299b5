-- ===== src/Backoffs/Bounds.antt =====
-- Bounds on the delays of src/classes/backoffs.ts.
use native.Mathlib.Nat.{
  mul-le-mul_right, mul-pos, div-le_of_le-mul, div-lt_iff_lt-mul, lt_of_mul-lt-mul_left, le_of_lt,
  lt_of_le_of_lt,
}
use elephantmq.Base.{
  ℕ, zero, suc, ◌+◌, ◌-◌, ◌*◌, ◌/◌, ◌≤◌, ◌<◌, ◌≡◌, ap, arith, Option, none, some, refl,
  if◌then◌else◌, ltb, Bool-cases, inl, ◌^◌, inr, eq_iff, str_eq, false,
}
use elephantmq.Base.Int.{pos, sub_ℕ, floor_div}
use elephantmq.Backoffs.{
  Fraction, BackoffOptions, Value, number, ok, jittered, doubled, fixed, exponential,
  jitter_or_zero, Strategy, calculate, lookup_strategy, undefined,
}

-- A jittered delay lies between the floor of `top * (1 - jitter)` and `top`.
abbrev pub Within : Fraction → ℕ → Value → Type 0
Within jitter top v =
    (d : ℕ) × (v ≡ number (pos d))
    × (d ≤ top)
    × (top * (jitter.den - jitter.num) < (d + 1) * jitter.den)

-- The rounded quotient, with a / b the random fraction and m / n the jitter.
module _ (a b m n t : ℕ) (r : a < b) (j : m ≤ n) (p : 0 < n) where
  spread : ℕ
  spread = a * t * m + b * t * n - b * t * m

  split_eq : b * t * n ≡ b * t * m + b * (t * (n - m))
  split_eq = let e : n ≡ m + (n - m) = omega arith in omega (arith, ap (λ (x : ℕ). b * t * x) e)

  spread_eq : spread ≡ a * t * m + b * (t * (n - m))
  unfolding spread
  spread_eq = omega (arith, split_eq)

  spread_le : spread / (b * n) ≤ t
  spread_le =
      div-le_of_le-mul (b * n)
        (omega (arith, spread_eq, split_eq, mul-le-mul_right (t * m) (le_of_lt r)))

  spread_gt : t * (n - m) < (spread / (b * n) + 1) * n
  spread_gt =
      let q = spread / (b * n) + 1 in
      let above : spread < q * (b * n) =
        (div-lt_iff_lt-mul {x = spread} {y = q}
            (mul-pos (lt_of_le_of_lt {m = a} (omega arith) r) p)).0
          (omega arith) in
      lt_of_mul-lt-mul_left b (omega (arith, spread_eq, above))

floor_div-sub : (x y d : ℕ) → y ≤ x → floor_div (sub_ℕ x y) d ≡ pos ((x - y) / d)
floor_div-sub x y d h = ground arith

jittered-Within :
    (random jitter : Fraction) (top : ℕ)
    → random.num < random.den
    → jitter.num ≤ jitter.den
    → 0 < jitter.den
    → Within jitter top (number (jittered random jitter top))
unfolding jittered spread
jittered-Within random jitter top r j p = (
  spread a b m n top r j p / (b * n),
  ap number (floor_div-sub _ _ (b * n) (omega (arith, split_eq a b m n top r j p))),
  spread_le a b m n top r j p,
  spread_gt a b m n top r j p,
)
  where
    open random use {num as a, den as b}
    open jitter use {num as m, den as n}

-- The options that job validation lets through: a fraction between 0 and 1.
abbrev pub IsProper : Option Fraction → Type 0
IsProper none = Unit {0}
IsProper (some j) = (j.num ≤ j.den) × (0 < j.den)

IsProper-or_zero :
    (o : Option Fraction)
    → IsProper o
    → ((jitter_or_zero o).num ≤ (jitter_or_zero o).den) × (0 < (jitter_or_zero o).den)
IsProper-or_zero none h = omega arith
IsProper-or_zero (some j) h = h

doubled_pos : (n delay : ℕ) → 0 < n → doubled n delay ≡ 2 ^ (n - 1) * delay
unfolding doubled
doubled_pos zero delay p = absurd (omega arith)
doubled_pos (suc n) delay p = ap (λ (e : ℕ). 2 ^ e * delay) (omega arith)

-- With no jitter the delay is exact.
Within-exact : (jitter : Fraction) (top : ℕ) → 0 < jitter.den → Within jitter top (number (pos top))
Within-exact jitter top p = (top, refl, omega arith, grind arith)

module _ (random : Fraction) (o : Option Fraction) (r : random.num < random.den)
    (h : IsProper o) where
  abbrev jitter : Fraction
  jitter = jitter_or_zero o

  -- Both strategies test the jitter and scale a top value by it.
  scaled-Within :
      (top : ℕ)
      → Within jitter top
          (if ltb 0 jitter.num then number (jittered random jitter top) else number (pos top))
  scaled-Within top = elim (Bool-cases (ltb 0 jitter.num)) [
    | inl some_jitter ↦ rw some_jitter (jittered-Within random jitter top r valid.0 valid.1)
    | inr no_jitter ↦ rw no_jitter (Within-exact jitter top valid.1)
  ]
    where
      valid : (jitter.num ≤ jitter.den) × (0 < jitter.den)
      valid = IsProper-or_zero o h

module _ {Err Job : Type 0} (random : Fraction) (backoff : BackoffOptions)
    (custom : Option (Strategy Err Job)) where
  lookup_strategy-fixed :
      backoff.kind ≡ "fixed"
      → lookup_strategy random backoff custom
        ≡ ok (λ _ _ _ _. fixed random backoff.delay (jitter_or_zero backoff.jitter))
  unfolding lookup_strategy
  lookup_strategy-fixed k = rw ((eq_iff backoff.kind "fixed").1 k)

  lookup_strategy-exponential :
      backoff.kind ≡ "exponential"
      → lookup_strategy random backoff custom
        ≡ ok (λ n _ _ _. exponential random backoff.delay (jitter_or_zero backoff.jitter) n)
  unfolding lookup_strategy
  lookup_strategy-exponential k =
      let other : str_eq backoff.kind "fixed" ≡ false = rw k refl in
      rw (other, (eq_iff backoff.kind "exponential").1 k)

  module _ (delay attempts : ℕ) (failure : Err) (job : Job) (r : random.num < random.den)
      (h : IsProper backoff.jitter) (d : backoff.delay ≡ some delay) where
    -- A "fixed" backoff with a delay and a jitter between 0 and 1 gives, whatever the attempt and
    -- whether or not a custom strategy is configured, a whole number of milliseconds between the
    -- floor of `delay * (1 - jitter)` and `delay`, for a random number below 1.
    calculate-fixed :
        backoff.kind ≡ "fixed"
        → (v : Value) × (calculate random (some backoff) attempts failure job custom ≡ ok v)
          × Within (jitter_or_zero backoff.jitter) delay v
    unfolding calculate fixed
    calculate-fixed k = (
      _,
      rw (lookup_strategy-fixed k, calculate, d, fixed),
      scaled-Within random backoff.jitter r h delay,
    )

    -- An "exponential" backoff with a delay and a jitter between 0 and 1 gives, at an attempt n of
    -- 1 or more, a whole number of milliseconds between the floor of
    -- `delay * 2^(n-1) * (1 - jitter)` and `delay * 2^(n-1)`, for a random number below 1 and whether
    -- or not a custom strategy is configured.
    pub calculate-exponential :
        backoff.kind ≡ "exponential"
        → 0 < attempts
        → (v : Value) × (calculate random (some backoff) attempts failure job custom ≡ ok v)
          × Within (jitter_or_zero backoff.jitter) (2 ^ (attempts - 1) * delay) v
    unfolding calculate exponential
    calculate-exponential k p = (
      _,
      rw (lookup_strategy-exponential k, calculate, d, exponential, doubled_pos attempts delay p),
      scaled-Within random backoff.jitter r h (2 ^ (attempts - 1) * delay),
    )

-- No backoff gives no delay.
pub calculate-no_backoff :
    {Err Job : Type 0} (random : Fraction) (o : Option BackoffOptions) (attempts : ℕ)
    (failure : Err) (job : Job) (custom : Option (Strategy Err Job))
    → o ≡ none
    → calculate random o attempts failure job custom ≡ ok undefined
unfolding calculate
calculate-no_backoff random none attempts failure job custom h = refl
calculate-no_backoff random (some o) attempts failure job custom h = cc
