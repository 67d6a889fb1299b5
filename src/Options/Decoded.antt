-- ===== src/Options/Decoded.antt =====
-- The options of src/classes/job.ts behind `optsAsJSON` and `optsFromJSON`.
use elephantmq.Base.Maps.{get, set, Unique}
use elephantmq.Base.{
  append-nil, inl, ◌∙◌, false, ◌++◌, ◌∷◌, some, str_eq, ap, List, ◌≡◌, subst, Bool-cases, arith,
  String, inr, Option, eq_refl, none, sym, eq_iff, refl, [], append_assoc, Option-cases,
}
use elephantmq.Options.Encoded.{
  set_fresh, Names-tail, get-append_fresh, Free, all_pieces, encode_entries_lem, Names, given,
  pieces, defined, rebuilt, kept, get-given, not_made, not_sym, Names-head, apart,
}
use elephantmq.Options.Coded.{short-inherited, Plain, short, owner-short, owner, full}
use elephantmq.Options.{
  looked_up, or_empty_object, decode_entry, Objects, opts_as_json, opts_from_json, opts_decode_map,
  decode_entries,
}

module _ {V : Type 0} (tel : Objects V) (tm_own : tel.inherited "tm" ≡ none)
    (omc_own : tel.inherited "omc" ≡ none) where
  set_last :
      (k : String) (v w : V) (m : List (String × V))
      → get k m ≡ none
      → set k v (m ++ (k, w) ∷ []) ≡ m ++ (k, v) ∷ []
  unfolding get set
  set_last k v w [] f = rw (eq_refl k) refl
  set_last k v w ((j, x) ∷ m) f = ground (arith, set_last k v w m)

  decode_entries-append :
      (a b o : List (String × V))
      → decode_entries tel (a ++ b) o ≡ decode_entries tel b (decode_entries tel a o)
  unfolding decode_entries
  decode_entries-append [] b o = refl
  decode_entries-append ((k, v) ∷ a) b o = decode_entries-append a b (decode_entry tel k v o)

  get_last :
      (k : String) (v : V) (m : List (String × V))
      → get k m ≡ none
      → get k (m ++ (k, v) ∷ []) ≡ some v
  unfolding get
  get_last k v m f = get-append_fresh tel k m ((k, v) ∷ []) f ∙ rw (eq_refl k) refl

  decode_tm :
      (v : V) (o : List (String × V))
      → decode_entry tel "tm" v o ≡ set "telemetry" (tel.with_metadata (get "telemetry" o) v) o
  unfolding decode_entry looked_up opts_decode_map get
  decode_tm v o = rw tm_own refl

  decode_omc :
      (v : V) (o : List (String × V))
      → decode_entry tel "omc" v o ≡ set "telemetry" (tel.with_omit_context (get "telemetry" o) v) o
  unfolding decode_entry looked_up opts_decode_map get
  decode_omc v o = rw omc_own refl

  decode_telemetry :
      (tm omc : Option V) (o : List (String × V))
      → get "telemetry" o ≡ none
      → decode_entries tel (given tel "tm" tm (given tel "omc" omc [])) o
        ≡ o ++ given tel "telemetry" (rebuilt tel tm omc) []
  unfolding decode_entries decode_entry looked_up given rebuilt opts_decode_map get
  decode_telemetry none none o f = sym (append-nil o)
  decode_telemetry (some m) none o f = rw (tm_own, f) (set_fresh tel "telemetry" _ o f)
  decode_telemetry none (some c) o f = rw (omc_own, f) (set_fresh tel "telemetry" _ o f)
  decode_telemetry (some m) (some c) o f =
      ap (decode_entry tel "omc" c) (
        decode_tm m o
        ∙ ap (λ t. set "telemetry" (tel.with_metadata t m) o) f
        ∙ set_fresh tel "telemetry" (tel.with_metadata none m) o f)
      ∙ decode_omc c (o ++ ("telemetry", tel.with_metadata none m) ∷ [])
      ∙ rw (get_last "telemetry" (tel.with_metadata none m) o f) (set_last "telemetry" _ _ o f)

  decode_full :
      (c : String) (v : V) (o : List (String × V))
      → str_eq c "tm" ≡ false
      → str_eq c "omc" ≡ false
      → (get c opts_decode_map ≡ none → tel.inherited c ≡ none)
      → decode_entry tel c v o ≡ set (owner c) v o
  unfolding decode_entry looked_up owner full
  decode_full c v o tm omc i = elim (Option-cases (get c opts_decode_map)) [
    | inl h ↦ rw (decode_entry, looked_up, owner, full, h, i h, tm, omc) refl
    | inr (k, h) ↦ rw (decode_entry, looked_up, owner, full, h, tm, omc) refl
  ]

  -- The name that an option is stored under is not one of those of a telemetry value.
  short_apart :
      (k d : String)
      → Plain tel.inherited k
      → str_eq k "telemetry" ≡ false
      → owner d ≡ "telemetry"
      → str_eq (short k) d ≡ false
  short_apart k d p n o = not_sym tel d (short k) (
      not_made tel "telemetry" d (short k) o
        (ap (λ j. str_eq j "telemetry") (owner-short tel.inherited k p) ∙ n))

  decode_short :
      (k : String) (v : V) (o : List (String × V))
      → Plain tel.inherited k
      → str_eq k "telemetry" ≡ false
      → decode_entry tel (short k) v o ≡ set k v o
  unfolding owner
  decode_short k v o p n =
      let tm = short_apart k "tm" p n refl in
      let omc = short_apart k "omc" p n refl in
      decode_full (short k) v o tm omc (short-inherited tel.inherited k p tm omc)
      ∙ ap (λ j. set j v o) (owner-short tel.inherited k p)

  decode_pieces :
      (k : String) (v : V) (o : List (String × V))
      → Plain tel.inherited k
      → get k o ≡ none
      → decode_entries tel (pieces tel k v) o ≡ o ++ kept tel k v
  unfolding pieces kept decode_entries
  decode_pieces k v o p f = elim (Bool-cases (str_eq k "telemetry")) [
    | inl e ↦
        rw (e, (eq_iff k "telemetry").0 e)
          (decode_telemetry (tel.metadata v) (tel.omit_context v) o
            (subst (λ j. get j o ≡ none) ((eq_iff k "telemetry").0 e) f))
    | inr e ↦ rw e (decode_short k v o p e ∙ set_fresh tel k v o f)
  ]

  get-kept : (j k : String) (v : V) → str_eq k j ≡ false → get j (kept tel k v) ≡ none
  unfolding kept get
  get-kept j k v d = elim (Bool-cases (str_eq k "telemetry")) [
    | inl e ↦ rw e (get-given tel j k (rebuilt tel (tel.metadata v) (tel.omit_context v)) d)
    | inr e ↦ rw e (rw d refl)
  ]

  Names-kept :
      (k : String) (v : V) (o : List (String × V)) (opts : List (String × Option V))
      → get k opts ≡ none
      → Names tel (λ j. get j o ≡ none) opts
      → Names tel (λ j. get j (o ++ kept tel k v) ≡ none) opts
  unfolding Names
  Names-kept k v o opts n f j b h =
      get-append_fresh tel j o (kept tel k v) (f j b h)
      ∙ get-kept j k v (not_sym tel j k (apart tel j k b opts n h))

  decode_pieces_all :
      (opts : List (String × Option V)) (o : List (String × V))
      → Unique opts
      → Names tel (Plain tel.inherited) opts
      → Names tel (λ k. get k o ≡ none) opts
      → decode_entries tel (all_pieces tel opts) o ≡ o ++ defined tel opts
  unfolding decode_entries all_pieces defined
  decode_pieces_all [] o u p f = sym (append-nil o)
  decode_pieces_all ((k, none) ∷ opts) o u p f =
      decode_pieces_all opts o u.1 (Names-tail tel (Plain tel.inherited) k none opts u.0 p)
        (Names-tail tel (λ j. get j o ≡ none) k none opts u.0 f)
  decode_pieces_all ((k, some v) ∷ opts) o u p f =
      decode_entries-append (pieces tel k v) (all_pieces tel opts) o
      ∙ ap (decode_entries tel (all_pieces tel opts)) (
          decode_pieces k v o (Names-head tel (Plain tel.inherited) k (some v) opts p)
            (Names-head tel (λ j. get j o ≡ none) k (some v) opts f))
      ∙ decode_pieces_all opts (o ++ kept tel k v) u.1
          (Names-tail tel (Plain tel.inherited) k (some v) opts u.0 p)
          (Names-kept k v o opts u.0 (Names-tail tel (λ j. get j o ≡ none) k (some v) opts u.0 f))
      ∙ append_assoc o (kept tel k v) (defined tel opts)

  decode_entries-as_json :
      (opts : List (String × Option V))
      → Unique opts
      → Names tel (Plain tel.inherited) opts
      → decode_entries tel (opts_as_json tel opts) [] ≡ defined tel opts
  unfolding opts_as_json Names Free get
  decode_entries-as_json opts u p =
      ap (λ raw. decode_entries tel raw []) (encode_entries_lem tel opts [] u p (λ k b h c o. refl))
      ∙ decode_pieces_all opts [] u p (λ k b h. refl)

  -- Where no name occurs twice and none is a short name or one that every object inherits, where no
  -- object inherits tm or omc, the options that optsFromJSON reads of a text that JSON parses as what optsAsJSON
  -- wrote are the defined entries in their order under their own names. Of a telemetry
  -- value only the metadata and omitContext come back, and without either of them it is gone.
  pub opts_from_json-as_json :
      (parse : String → Option (List (String × V))) (text : String)
      (opts : List (String × Option V))
      → Unique opts
      → Names tel (Plain tel.inherited) opts
      → str_eq text "" ≡ false
      → parse text ≡ some (opts_as_json tel opts)
      → opts_from_json tel parse (some text) ≡ some (defined tel opts)
  unfolding opts_from_json or_empty_object
  opts_from_json-as_json parse text opts u p filled parsed =
      rw (opts_from_json, or_empty_object, filled, parsed)
        (ap some (decode_entries-as_json opts u p))
