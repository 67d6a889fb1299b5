-- ===== src/Base/Maps.antt =====
-- Maps from texts, in the order in which their keys were added, as the program's objects and maps
-- keep them: lookups after writes, and unique keys.
use elephantmq.Base.{
  none, inr, List, ◌≡◌, [], str_eq, refl, eq_iff, inl, some, arith, ◌∙◌, if◌then◌else◌, Option,
  Bool-cases, String, ◌∷◌, false,
}

module _ {ℓ} {V : Type ℓ} where
  unfoldable pub get : String → List (String × V) → Option V
  get k [] = none
  get k ((j, v) ∷ m) = if str_eq j k then some v else get k m

  unfoldable pub set : String → V → List (String × V) → List (String × V)
  set k v [] = (k, v) ∷ []
  set k v ((j, w) ∷ m) = if str_eq j k then (j, v) ∷ m else (j, w) ∷ set k v m

  unfoldable pub delete : String → List (String × V) → List (String × V)
  delete k [] = []
  delete k ((j, w) ∷ m) = if str_eq j k then m else (j, w) ∷ delete k m

  abbrev pub keys : List (String × V) → List String
  keys [] = []
  keys ((j, w) ∷ m) = j ∷ keys m

module _ {V : Type 0} where
  -- No key occurs twice.
  abbrev pub Unique : List (String × V) → Type 0
  Unique [] = Unit
  Unique ((j, v) ∷ m) = (get j m ≡ none) × Unique m

  pub get-set :
      (k j : String) (v : V) (m : List (String × V))
      → get j (set k v m) ≡ (if str_eq k j then some v else get j m)
  unfolding get set
  get-set k j v [] = refl
  get-set k j v ((i, w) ∷ m) = ground (arith, eq_iff k j, eq_iff i k, eq_iff i j, get-set k j v m)

  pub get-delete_other :
      (k j : String) (m : List (String × V)) → str_eq k j ≡ false → get j (delete k m) ≡ get j m
  unfolding get delete
  get-delete_other k j [] n = refl
  get-delete_other k j ((i, w) ∷ m) n =
      ground (arith, eq_iff k j, eq_iff i k, eq_iff i j, get-delete_other k j m n)

  pub get-delete_self : (k : String) (m : List (String × V)) → Unique m → get k (delete k m) ≡ none
  unfolding get delete
  get-delete_self k [] u = refl
  get-delete_self k ((i, w) ∷ m) u = ground (arith, eq_iff i k, get-delete_self k m u.1)

  pub set-Unique : (k : String) (v : V) (m : List (String × V)) → Unique m → Unique (set k v m)
  unfolding set get
  set-Unique k v [] u = (refl, tt)
  set-Unique k v ((i, w) ∷ m) u = elim (Bool-cases (str_eq i k)) [
    | inl same ↦ rw same u
    | inr other ↦
        rw other
          (get-set k i v m ∙ ground (arith, eq_iff k i, eq_iff i k, u.0), set-Unique k v m u.1)
  ]

  pub delete-Unique : (k : String) (m : List (String × V)) → Unique m → Unique (delete k m)
  unfolding delete get
  delete-Unique k [] u = tt
  delete-Unique k ((i, w) ∷ m) u = elim (Bool-cases (str_eq i k)) [
    | inl same ↦ rw same u.1
    | inr other ↦ rw other (
      get-delete_other k i m (ground (arith, eq_iff k i, eq_iff i k)) ∙ u.0,
      delete-Unique k m u.1,
    )
  ]
