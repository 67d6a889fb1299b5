-- ===== src/Worker/Retry.antt =====
-- `retryIfFailed` of src/classes/worker.ts: an operation is tried again while the connection fails.
use elephantmq.Base.{
  false, List, ◌+◌, ℕ, some, Bool, ◌<◌, ◌&&◌, ◌∷◌, true, not, String, ◌≢◌, zero, if◌then◌else◌, ◌≡◌,
  ◌||◌, ◌++◌, ltb, none, Option, [], All, leb, suc, ◌≤◌, arith, inr, ◌∙◌, refl, ap, Bool-cases, inl,
  subst,
}

-- What a try gives: a value, or an error with its text and whether it is one of the connection.
pub data Try (A : Type 0) : Type 0 where
  gives : A → Try A
  fails : String → Bool → Try A

-- The flags of the worker that the handler of a failed try reads.
pub record Flags : Type 0 where
  pub paused : Bool
  pub closing : Bool
  pub closed : Bool

pub record RetryOptions : Type 0 where
  pub delay_in_ms : ℕ
  pub max_retries : Option ℕ
  pub only_emit_error : Bool

-- What the loop does on its way: it emits an error, or sleeps.
pub data Effect : Type 0 where
  emits : String → Effect
  delays : ℕ → Effect

-- How it ends: with a value, with undefined, by an error, or not within the fuel.
pub data Ended (A : Type 0) : Type 0 where
  returned : A → Ended A
  undefined : Ended A
  thrown : String → Ended A
  unfinished : Ended A

-- `opts.maxRetries || Infinity`
abbrev pub reached : Option ℕ → ℕ → Bool
reached none n = false
reached (some zero) n = false
reached (some (suc m)) n = leb (suc m) n

abbrev pub reported : Flags → String → List Effect
reported f message = if f.paused || f.closing then [] else emits message ∷ []

abbrev pub slept : Flags → RetryOptions → List Effect
slept f o =
    if ltb 0 o.delay_in_ms && not f.closing && not f.closed then delays o.delay_in_ms ∷ [] else []

module _ {A : Type 0} (seen : ℕ → Flags) (fn : ℕ → Try A) (o : RetryOptions) where
  -- A try that fails for another reason than the connection.
  abbrev give_up : Flags → String → List Effect × Ended A
  give_up f message = (reported f message, if o.only_emit_error then undefined else thrown message)

  abbrev behind : List Effect → List Effect × Ended A → List Effect × Ended A
  behind before (effects, end) = (before ++ effects, end)

  -- The tries from the one numbered `retry` on. The fuel bounds their number.
  unfoldable pub retry_if_failed : ℕ → ℕ → List Effect × Ended A
  retry_if_failed zero retry = ([], unfinished)
  retry_if_failed (suc fuel) retry = elim (fn retry) [
    | gives a ↦ ([], returned a)
    | fails message false ↦ give_up (seen retry) message
    | fails message true ↦ elim (reached o.max_retries (retry + 1)) [
      | true ↦ (slept (seen retry) o, thrown message)
      | false ↦ behind (slept (seen retry) o) (retry_if_failed fuel (retry + 1))
    ]
  ]

  abbrev pub FailsConnection : Try A → Type 0
  FailsConnection (gives a) = ⊥
  FailsConnection (fails message of_connection) = of_connection ≡ true

  -- A try that the connection fails is behind those that follow, where the limit is not reached.
  retry_if_failed-fails :
      (fuel retry : ℕ) (t : Try A)
      → fn retry ≡ t
      → FailsConnection t
      → reached o.max_retries (retry + 1) ≡ false
      → retry_if_failed (suc fuel) retry
        ≡ behind (slept (seen retry) o) (retry_if_failed fuel (retry + 1))
  unfolding retry_if_failed
  retry_if_failed-fails fuel retry (gives a) e f r = absurd f
  retry_if_failed-fails fuel retry (fails message true) e f r = rw (e, r, retry_if_failed)
  retry_if_failed-fails fuel retry (fails message false) e f r = cc

  abbrev IsDelay : Effect → Type 0
  IsDelay e = e ≡ delays o.delay_in_ms

  slept-All : (f : Flags) (rest : List Effect) → All IsDelay rest → All IsDelay (slept f o ++ rest)
  slept-All f rest h = elim (Bool-cases (ltb 0 o.delay_in_ms && not f.closing && not f.closed)) [
    | inl y ↦ rw y (refl, h)
    | inr n ↦ rw n h
  ]

  -- With no limit on the retries, the value of the first try that gives one is returned, however many
  -- tries fail before it because of the connection, and no error is emitted or thrown on the way.
  pub retry_if_failed-returned :
      (k retry : ℕ) (a : A)
      → o.max_retries ≡ none
      → ((i : ℕ) → i < k → FailsConnection (fn (retry + i)))
      → fn (retry + k) ≡ gives a
      → (effects : List Effect) × (retry_if_failed (suc k) retry ≡ (effects, returned a))
        × All (λ e. e ≡ delays o.delay_in_ms) effects
  unfolding retry_if_failed
  retry_if_failed-returned zero retry a unlimited down up =
      let e : fn retry ≡ gives a = ap fn (omega arith) ∙ up in ([], rw (e, retry_if_failed), tt)
  retry_if_failed-returned (suc k) retry a unlimited down up =
      let (effects, e, h) =
        retry_if_failed-returned k (retry + 1) a unlimited
          (λ i lt. subst (λ n. FailsConnection (fn n)) (omega arith) (down (suc i) (omega arith)))
          (ap fn (omega arith) ∙ up) in
      let first : FailsConnection (fn retry) =
        subst (λ n. FailsConnection (fn n)) (omega arith) (down 0 (omega arith)) in
      let step = retry_if_failed-fails (suc k) retry (fn retry) refl first (rw unlimited refl) in
      (
        slept (seen retry) o ++ effects,
        step ∙ ap (behind (slept (seen retry) o)) e,
        slept-All (seen retry) effects h,
      )

  Try-ends :
      (m fuel retry : ℕ) (t : Try A)
      → fn retry ≡ t
      → o.max_retries ≡ some (suc m)
      → retry ≤ m
      → m < retry + suc fuel
      → (o.max_retries ≡ some (suc m)
          → retry + 1 ≤ m
          → m < retry + 1 + fuel
          → (retry_if_failed fuel (retry + 1)).1 ≢ unfinished)
      → (retry_if_failed (suc fuel) retry).1 ≢ unfinished
  unfolding retry_if_failed
  Try-ends m fuel retry (gives a) e limited low enough rest = rw (e, retry_if_failed) (λ h. cc)
  Try-ends m fuel retry (fails message false) e limited low enough rest =
      rw (e, retry_if_failed) (λ h. ground arith)
  Try-ends m fuel retry (fails message true) e limited low enough rest =
      elim (Bool-cases (reached o.max_retries (retry + 1))) [
        | inl last ↦ rw (e, last, retry_if_failed) (λ h. cc)
        | inr more ↦
            let below : retry + 1 ≤ m = ground arith in
            rw (retry_if_failed-fails fuel retry (fails message true) e refl more)
              (rest limited below (omega arith))
      ]

  -- With a limit the loop ends within as many tries, whatever they give.
  pub retry_if_failed-ends :
      (m fuel retry : ℕ)
      → o.max_retries ≡ some (suc m)
      → retry ≤ m
      → m < retry + fuel
      → (retry_if_failed fuel retry).1 ≢ unfinished
  retry_if_failed-ends m zero retry limited low enough = absurd (omega arith)
  retry_if_failed-ends m (suc fuel) retry limited low enough =
      Try-ends m fuel retry (fn retry) refl limited low enough
        (retry_if_failed-ends m fuel (retry + 1))
