-- ===== src/Fifo/Contract.antt =====
-- What a first-in first-out list promises to the queue of promises: its operations, and their laws
-- over the list of its values, oldest first.
use elephantmq.Base.{◌≡◌, List, some, [], none, ◌∷◌, ℕ, Option, ◌++◌, length, ◌⊎◌}

pub record FifoList (A : Type 0) : Type 1 where
  pub Carrier : Type 0
  pub IsGood : Carrier → Type 0
  pub to_list : Carrier → List A
  pub empty : Carrier
  pub push : Carrier → A → Carrier
  pub shift : Carrier → Option A × Carrier
  pub size : Carrier → ℕ
  pub empty_good : IsGood empty
  pub push_good : (l : Carrier) (a : A) → IsGood l → IsGood (push l a)
  pub shift_good : (l : Carrier) → IsGood l → IsGood (shift l).1
  pub to_list_empty : to_list empty ≡ []
  pub to_list_push : (l : Carrier) (a : A) → IsGood l → to_list (push l a) ≡ to_list l ++ a ∷ []
  pub shift_to_list :
      (l : Carrier)
      → IsGood l
      → ((to_list l ≡ []) × ((shift l).0 ≡ none) × (to_list (shift l).1 ≡ []))
        ⊎ ((a : A) × ((shift l).0 ≡ some a) × (to_list l ≡ a ∷ to_list (shift l).1))
  pub size_length : (l : Carrier) → IsGood l → size l ≡ length (to_list l)
