-- ===== src/Options/Tests.antt =====
-- Options of src/classes/job.ts stored and read.
use elephantmq.Base.Maps.{get, Unique}
use elephantmq.Base.{
  String, ◌∷◌, none, some, [], ◌≡◌, ℕ, List, Option, ap, if◌then◌else◌, str_eq, arith, sym, inl,
  eq_iff, refl, Bool-cases, subst, inr, ◌∙◌,
}
use elephantmq.Options.{opts_as_json, opts_from_json, Objects, opts_decode_map}
use elephantmq.Options.Coded.{Plain}
use elephantmq.Options.Decoded.{opts_from_json-as_json}
use elephantmq.Options.Encoded.{Names, defined}

data Value : Type 0 where
  plain : ℕ → Value
  telemetry_of : Option ℕ → Option ℕ → Value

abbrev plain_of : Option ℕ → Option Value
plain_of none = none
plain_of (some n) = some (plain n)

abbrev amount_of : Value → Option ℕ
amount_of (plain n) = some n
amount_of (telemetry_of m o) = none

abbrev metadata_of : Value → Option Value
metadata_of (plain n) = none
metadata_of (telemetry_of m o) = plain_of m

abbrev omit_of : Value → Option Value
omit_of (plain n) = none
omit_of (telemetry_of m o) = plain_of o

abbrev with_metadata_of : Option Value → Value → Value
with_metadata_of none v = telemetry_of (amount_of v) none
with_metadata_of (some (plain n)) v = telemetry_of (amount_of v) none
with_metadata_of (some (telemetry_of m o)) v = telemetry_of (amount_of v) o

abbrev with_omit_of : Option Value → Value → Value
with_omit_of none v = telemetry_of none (amount_of v)
with_omit_of (some (plain n)) v = telemetry_of none (amount_of v)
with_omit_of (some (telemetry_of m o)) v = telemetry_of m (amount_of v)

-- Two of the members that every object inherits.
abbrev inherited_of : String → Option String
inherited_of k =
    if str_eq k "constructor"
    then some "function Object() { [native code] }"
    else if str_eq k "__proto__"
    then some "[object Object]"
    else none

abbrev values : Objects Value
values = record {
  inherited = inherited_of;
  metadata = metadata_of;
  omit_context = omit_of;
  with_metadata = with_metadata_of;
  with_omit_context = with_omit_of;
}

abbrev options : List (String × Option Value)
options =
    ("attempts", some (plain 3))
    ∷ ("keepLogs", some (plain 9))
    ∷ ("delay", none)
    ∷ ("telemetry", some (telemetry_of (some 4) (some 1)))
    ∷ []

options-Unique : Unique options
unfolding get
options-Unique = (refl, (refl, (refl, (refl, tt))))

Names-add :
    (k : String) (a : Option Value) (m : List (String × Option Value))
    → Plain inherited_of k
    → Names values (Plain inherited_of) m
    → Names values (Plain inherited_of) ((k, a) ∷ m)
unfolding Names get
Names-add k a m p ps j b h = elim (Bool-cases (str_eq k j)) [
  | inl e ↦ subst (Plain inherited_of) ((eq_iff k j).0 e) p
  | inr e ↦ ps j b (sym (ap (λ t. if t then some a else get j m) e) ∙ h)
]

abbrev no_options : List (String × Option Value)
no_options = []

Names-none : Names values (Plain inherited_of) no_options
unfolding Names get
Names-none j b h = ground arith

options-Plain : Names values (Plain inherited_of) options
unfolding Plain get opts_decode_map
options-Plain =
    Names-add "attempts" _ _ (refl, refl, refl, refl)
      (Names-add "keepLogs" _ _ (refl, refl, refl, refl)
        (Names-add "delay" _ _ (refl, refl, refl, refl)
          (Names-add "telemetry" _ _ (refl, refl, refl, refl) Names-none)))

-- JSON as far as it is read here.
abbrev parsed : String → Option (List (String × Value))
parsed t = if str_eq t "{..}" then some (opts_as_json values options) else none

opts_from_json-as_json_example :
    opts_from_json values parsed (some "{..}") ≡ some (defined values options)
opts_from_json-as_json_example =
    opts_from_json-as_json values refl refl parsed "{..}" options options-Unique options-Plain refl
      refl
