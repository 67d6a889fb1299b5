-- ===== src/Options/Coded.antt =====
-- The tables of short names of src/utils/index.ts.
use elephantmq.Base.Maps.{get, set}
use elephantmq.Base.{
  str_eq, none, arith, eq_iff, false, String, some, ◌≡◌, All, Bool-cases, List, ◌||◌, if◌then◌else◌,
  Bool, Option-cases, ◌&&◌, inr, not, [], ◌∷◌, inl, true, ap, ◌∙◌, refl, sym, Option, subst,
}
use elephantmq.Options.{opts_encode_map, opts_decode_map, invert_object}

-- A name that is neither one of the short names nor one that every object inherits.
unfoldable pub Plain : (String → Option String) → String → Type 0
Plain inherited k =
    (get k opts_decode_map ≡ none)
    × (str_eq k "tm" ≡ false)
    × (str_eq k "omc" ≡ false)
    × (inherited k ≡ none)

-- The name that a value is stored under, and the name of a stored value.
unfoldable pub short : String → String
short k = elim (get k opts_encode_map) [ none ↦ k | some c ↦ c ]

unfoldable pub full : String → String
full c = elim (get c opts_decode_map) [ none ↦ c | some k ↦ k ]

-- The option that a stored name belongs to.
unfoldable pub owner : String → String
owner c = if str_eq c "tm" || str_eq c "omc" then "telemetry" else full c

-- What holds of all entries of a table holds of one that is found.
get-All :
    (P : String → String → Bool) (k v : String) (m : List (String × String))
    → All (λ e. P e.0 e.1 ≡ true) m
    → get k m ≡ some v
    → P k v ≡ true
unfolding get
get-All P k v [] a h = ground arith
get-All P k v ((j, w) ∷ m) a h = elim (Bool-cases (str_eq j k)) [
  | inl e ↦ ground (arith, eq_iff j k, a.0)
  | inr e ↦ get-All P k v m a.1 ((sym (ap (λ b. if b then some w else get k m) e) ∙ h))
]

returns : String → String → Bool
returns k c = str_eq (full c) k && not (str_eq c "tm" || str_eq c "omc")

table-returns : All (λ e. returns e.0 e.1 ≡ true) opts_encode_map
unfolding opts_encode_map opts_decode_map invert_object full get set returns
table-returns = (refl, (refl, (refl, (refl, (refl, (refl, tt))))))

owner-returns : (k c : String) → returns k c ≡ true → owner c ≡ k
unfolding returns owner
owner-returns k c r = ground (arith, eq_iff (full c) k)

pub owner-short : (i : String → Option String) (k : String) → Plain i k → owner (short k) ≡ k
unfolding short Plain owner full
owner-short i k p = elim (Option-cases (get k opts_encode_map)) [
  | inl h ↦ rw (short, h, p.1, p.2) (rw (full, p.0) refl)
  | inr (c, h) ↦
      rw (short, h) (owner-returns k c (get-All returns k c opts_encode_map table-returns h))
]

owner-plain :
    (c : String)
    → str_eq c "tm" ≡ false
    → str_eq c "omc" ≡ false
    → get c opts_decode_map ≡ none
    → owner c ≡ c
unfolding owner full
owner-plain c tm omc h = rw (owner, full, tm, omc, h) refl

-- A name that an option is stored under is inherited only where the option's own name is.
pub short-inherited :
    (i : String → Option String) (k : String)
    → Plain i k
    → str_eq (short k) "tm" ≡ false
    → str_eq (short k) "omc" ≡ false
    → get (short k) opts_decode_map ≡ none
    → i (short k) ≡ none
unfolding Plain
short-inherited i k p tm omc h =
    subst (λ c. i c ≡ none) (sym (owner-short i k p) ∙ owner-plain (short k) tm omc h) p.3
