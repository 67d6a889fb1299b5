-- ===== src/Base/Texts.antt =====
-- Sets of texts, as lists.
use elephantmq.Base.{
  ◌&&◌, ◌∷◌, List, if◌then◌else◌, subst, refl, true, ◌∙◌, Bool-cases, eq_iff, ◌||◌, arith, ◌++◌, [],
  ◌≡◌, false, String, Bool, inl, inr, not, str_eq,
}

unfoldable pub has : String → List String → Bool
has t [] = false
has t (s ∷ ss) = str_eq s t || has t ss

unfoldable pub without : String → List String → List String
without t [] = []
without t (s ∷ ss) = let rest = without t ss in if str_eq s t then rest else s ∷ rest

unfoldable pub with_text : String → List String → List String
unfolding has
with_text t ss = if has t ss then ss else ss ++ t ∷ []

pub has-append_one :
    (c t : String) (ss : List String) → has c (ss ++ t ∷ []) ≡ (has c ss || str_eq t c)
unfolding has
has-append_one c t [] = ground arith
has-append_one c t (s ∷ ss) = rw (has-append_one c t ss) (ground arith)

pub has-with_text :
    (c t : String) (ss : List String) → has c (with_text t ss) ≡ (str_eq t c || has c ss)
unfolding with_text
has-with_text c t ss = elim (Bool-cases (has t ss)) [
  | inl h ↦ elim (Bool-cases (str_eq t c)) [
    | inl e ↦ rw (h, e) (subst (λ x. has x ss ≡ true) ((eq_iff t c).0 e) h)
    | inr e ↦ rw (h, e) refl
  ]
  | inr h ↦ rw h (has-append_one c t ss ∙ ground arith)
]

pub has-without :
    (c t : String) (ss : List String) → has c (without t ss) ≡ (not (str_eq t c) && has c ss)
unfolding has without
has-without c t [] = ground arith
has-without c t (s ∷ ss) = ground (arith, eq_iff s t, eq_iff s c, eq_iff t c, has-without c t ss)
