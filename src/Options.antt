-- ===== src/Options.antt =====
-- The options of a job under their short names, as they are stored, and back: `optsAsJSON` and
-- `optsFromJSON` of src/classes/job.ts with the tables of src/utils/index.ts. An object is its entries
-- in the order they were set, as JavaScript keeps names that are no array indices; undefined is none.
pub mod Coded
pub mod Encoded
pub mod Decoded
pub mod Tests
use elephantmq.Base.Maps.{get, set}
use elephantmq.Base.{◌∷◌, some, if◌then◌else◌, Option, List, str_eq, none, String, []}

unfoldable pub opts_decode_map : List (String × String)
opts_decode_map =
    ("de", "deduplication")
    ∷ ("fpof", "failParentOnFailure")
    ∷ ("cpof", "continueParentOnFailure")
    ∷ ("idof", "ignoreDependencyOnFailure")
    ∷ ("kl", "keepLogs")
    ∷ ("rdof", "removeDependencyOnFailure")
    ∷ []

unfoldable pub invert_object :
    List (String × String) → List (String × String) → List (String × String)
invert_object acc [] = acc
invert_object acc ((k, v) ∷ m) = invert_object (set v k acc) m

unfoldable pub opts_encode_map : List (String × String)
opts_encode_map = invert_object [] opts_decode_map

-- The member that every object inherits under a name, if there is one, as the text it is as a name;
-- the fields of a telemetry value, and a copy of one that may be undefined with a field replaced.
pub record Objects (V : Type 0) : Type 0 where
  pub inherited : String → Option String
  pub metadata : V → Option V
  pub omit_context : V → Option V
  pub with_metadata : Option V → V → V
  pub with_omit_context : Option V → V → V

-- `rawOpts || '{}'`.
unfoldable pub or_empty_object : Option String → String
or_empty_object none = "{}"
or_empty_object (some t) = if str_eq t "" then "{}" else t

module _ {V : Type 0} (tel : Objects V) where
  -- What a table of names gives for a name, by itself or by inheritance.
  unfoldable pub looked_up : String → List (String × String) → Option String
  looked_up k table = elim (get k table) [ none ↦ tel.inherited k | some c ↦ some c ]

  unfoldable pub set_given : String → Option V → List (String × V) → List (String × V)
  set_given k none m = m
  set_given k (some v) m = set k v m

  unfoldable pub encode_entry : String → V → List (String × V) → List (String × V)
  encode_entry k v options = elim (looked_up k opts_encode_map) [
    | some key ↦ set key v options
    | none ↦
        if str_eq k "telemetry"
        then set_given "omc" (tel.omit_context v) (set_given "tm" (tel.metadata v) options)
        else set k v options
  ]

  unfoldable pub encode_entries : List (String × Option V) → List (String × V) → List (String × V)
  encode_entries [] options = options
  encode_entries ((k, none) ∷ opts) options = encode_entries opts options
  encode_entries ((k, some v) ∷ opts) options = encode_entries opts (encode_entry k v options)

  unfoldable pub opts_as_json : List (String × Option V) → List (String × V)
  opts_as_json opts = encode_entries opts []

  unfoldable pub decode_entry : String → V → List (String × V) → List (String × V)
  decode_entry k v options = elim (looked_up k opts_decode_map) [
    | some name ↦ set name v options
    | none ↦
        if str_eq k "tm"
        then set "telemetry" (tel.with_metadata (get "telemetry" options) v) options
        else if str_eq k "omc"
        then set "telemetry" (tel.with_omit_context (get "telemetry" options) v) options
        else set k v options
  ]

  unfoldable pub decode_entries : List (String × V) → List (String × V) → List (String × V)
  decode_entries [] options = options
  decode_entries ((k, v) ∷ raw) options = decode_entries raw (decode_entry k v options)

  -- `parse` gives the entries of the object that a text is as JSON, and nothing where it throws.
  unfoldable pub opts_from_json :
      (String → Option (List (String × V))) → Option String → Option (List (String × V))
  unfolding or_empty_object
  opts_from_json parse raw_opts = elim (parse (or_empty_object raw_opts)) [
    | none ↦ none
    | some raw ↦ some (decode_entries raw [])
  ]
