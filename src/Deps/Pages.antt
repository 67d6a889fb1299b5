-- ===== src/Deps/Pages.antt =====
-- The pages of a bucket (src/classes/emq-job-deps.ts): a reader who follows the cursors.
use elephantmq.Base.{
  ℕ, List, ◌+◌, ◌≡◌, false, some, suc, length, ◌<◌, drop, none, take, Option, true, ◌++◌, zero, ◌≤◌,
  min, length-take, if◌then◌else◌, ◌∷◌, inl, ap, ◌-◌, ltb, [], arith, length-drop, Bool-cases,
  append-nil, inr, sym, eq-nil_of_length, ◌∙◌, refl,
}
use elephantmq.Deps.{Row, page, listpack_threshold, PageOptions}
use mathlib.Core.Option

abbrev and_then : (ℕ → Option (List Row)) → List Row × ℕ → Option (List Row)
and_then rest (found, zero) = some found
and_then rest (found, suc next) = Option.map (λ more. found ++ more) (rest (suc next))

-- The reader asks with the cursor of the last answer until it is 0. The fuel bounds the calls.
unfoldable pub follow : ℕ → ℕ → ℕ → List Row → Option (List Row)
follow zero count cur rows = none
follow (suc fuel) count cur rows =
    and_then (λ next. follow fuel count next rows)
      (page rows (record { cursor = some cur; count = some count }))

take-drop {ℓ} : {A : Type ℓ} (n : ℕ) (xs : List A) → take n xs ++ drop (length (take n xs)) xs ≡ xs
take-drop zero xs = refl
take-drop (suc n) [] = refl
take-drop (suc n) (x ∷ xs) = ap (◌∷◌ x) (take-drop n xs)

drop-nil {ℓ} : {A : Type ℓ} (n : ℕ) → drop {A = A} n [] ≡ []
drop-nil zero = refl
drop-nil (suc n) = refl

take-drop-drop {ℓ} :
    {A : Type ℓ} (n c : ℕ) (xs : List A)
    → take n (drop c xs) ++ drop (c + length (take n (drop c xs))) xs ≡ drop c xs
take-drop-drop n zero xs =
    let e : 0 + length (take n xs) ≡ length (take n xs) = omega arith in
    ap (λ k. take n xs ++ drop k xs) e ∙ take-drop n xs
take-drop-drop zero (suc c) [] = drop-nil (suc c + 0)
take-drop-drop (suc n) (suc c) [] = drop-nil (suc c + 0)
take-drop-drop n (suc c) (x ∷ xs) =
    let size = length (take n (drop c xs)) in
    let e : suc c + size ≡ suc (c + size) = omega arith in
    ap (λ k. take n (drop c xs) ++ drop k (x ∷ xs)) e ∙ take-drop-drop n c xs

drop-all {ℓ} : {A : Type ℓ} (n : ℕ) (xs : List A) → length xs ≤ n → drop n xs ≡ []
drop-all n xs h = eq-nil_of_length _ (length-drop n xs ∙ omega (arith, h))

module _ (count : ℕ) (rows : List Row) where
  abbrev at_cursor : ℕ → PageOptions
  at_cursor cur = record { cursor = some cur; count = some count }

  follow_last :
      (fuel cur : ℕ) (found : List Row)
      → page rows (at_cursor cur) ≡ (found, 0)
      → follow (suc fuel) count cur rows ≡ some found
  unfolding follow
  follow_last fuel cur found e = ap (and_then (λ next. follow fuel count next rows)) e

  follow_more :
      (fuel cur next : ℕ) (found rest : List Row)
      → page rows (at_cursor cur) ≡ (found, next)
      → 0 < next
      → follow fuel count next rows ≡ some rest
      → follow (suc fuel) count cur rows ≡ some (found ++ rest)
  unfolding follow
  follow_more fuel cur zero found rest e more r = absurd (omega arith)
  follow_more fuel cur (suc next) found rest e more r =
      ap (and_then (λ next. follow fuel count next rows)) e ∙ ap (Option.map (λ l. found ++ l)) r

  -- The rows of a page, and its size, where there are too many for one answer.
  abbrev part : ℕ → List Row
  part cur = take count (drop cur rows)

  length-part : (cur : ℕ) → length (part cur) ≡ min count (length rows - cur)
  length-part cur = length-take count (drop cur rows) ∙ ap (min count) (length-drop cur rows)

  module _ (many : ltb listpack_threshold (length rows) ≡ true) (p : 0 < count) where
    page-part :
        (cur : ℕ)
        → page rows (at_cursor cur) ≡ (
          part cur,
          if ltb (cur + length (part cur)) (length rows) then cur + length (part cur) else 0,
        )
    unfolding page
    page-part cur = rw many

    follow-drop :
        (fuel cur : ℕ)
        → cur < length rows
        → length rows ≤ cur + fuel
        → follow (suc fuel) count cur rows ≡ some (drop cur rows)
    follow-drop zero cur below enough = absurd (omega arith)
    follow-drop (suc fuel) cur below enough =
        elim (Bool-cases (ltb (cur + length (part cur)) (length rows))) [
          | inl more ↦
              let e =
                page-part cur
                ∙ ap (λ b. (part cur, if b then cur + length (part cur) else 0)) more in
              let size = length-part cur in
              follow_more (suc fuel) cur (cur + length (part cur)) (part cur) _ e (ground arith)
                (follow-drop fuel (cur + length (part cur)) (ground arith) (omega (arith, size)))
              ∙ ap some (take-drop-drop count cur rows)
          | inr done ↦
              let e =
                page-part cur
                ∙ ap (λ b. (part cur, if b then cur + length (part cur) else 0)) done in
              let whole : part cur ≡ drop cur rows =
                sym (append-nil _)
                ∙ ap (λ l. part cur ++ l)
                    (sym (drop-all (cur + length (part cur)) rows (ground arith)))
                ∙ take-drop-drop count cur rows in
              follow_last (suc fuel) cur (part cur) e ∙ ap some whole
        ]

  -- Where one answer holds all.
  page_whole : ltb listpack_threshold (length rows) ≡ false → page rows (at_cursor 0) ≡ (rows, 0)
  unfolding page
  page_whole few = rw few

-- Whoever asks for pages of at least one row gets, from the first cursor on, every row once and in
-- order, within as many calls as there are rows, and one more.
pub follow-all :
    (count : ℕ) (rows : List Row) → 0 < count → follow (suc (length rows)) count 0 rows ≡ some rows
follow-all count rows p = elim (Bool-cases (ltb listpack_threshold (length rows))) [
  | inl many ↦ follow-drop count rows many p (length rows) 0 (ground arith) (omega arith)
  | inr few ↦ follow_last count rows (length rows) 0 rows (page_whole count rows few)
]
