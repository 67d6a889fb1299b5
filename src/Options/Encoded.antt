-- ===== src/Options/Encoded.antt =====
-- The options of src/classes/job.ts behind `optsAsJSON` and `optsFromJSON`.
use elephantmq.Base.Maps.{get, set, Unique}
use elephantmq.Base.{
  ◌≡◌, if◌then◌else◌, ◌++◌, some, none, String, [], Option, str_eq, false, refl, ◌∷◌, List, inl,
  arith, eq_iff, ap, Bool-cases, ◌∙◌, append-nil, Option-cases, append_assoc, sym, inr, subst,
  eq_refl,
}
use elephantmq.Options.Coded.{Plain, short, owner, owner-short}
use elephantmq.Options.{
  looked_up, Objects, encode_entry, opts_encode_map, invert_object, set_given, opts_decode_map,
  encode_entries,
}

-- What an entry is stored as, and what is read back of it.
module _ {V : Type 0} (tel : Objects V) where
  unfoldable pub given : String → Option V → List (String × V) → List (String × V)
  given k none m = m
  given k (some v) m = (k, v) ∷ m

  unfoldable pub pieces : String → V → List (String × V)
  pieces k v =
      if str_eq k "telemetry"
      then given "tm" (tel.metadata v) (given "omc" (tel.omit_context v) [])
      else (short k, v) ∷ []

  -- A telemetry value with the fields of another.
  unfoldable pub rebuilt : Option V → Option V → Option V
  rebuilt none none = none
  rebuilt (some m) none = some (tel.with_metadata none m)
  rebuilt none (some o) = some (tel.with_omit_context none o)
  rebuilt (some m) (some o) = some (tel.with_omit_context (some (tel.with_metadata none m)) o)

  unfoldable pub kept : String → V → List (String × V)
  kept k v =
      if str_eq k "telemetry"
      then given k (rebuilt (tel.metadata v) (tel.omit_context v)) []
      else (k, v) ∷ []

  unfoldable pub all_pieces : List (String × Option V) → List (String × V)
  all_pieces [] = []
  all_pieces ((k, none) ∷ opts) = all_pieces opts
  all_pieces ((k, some v) ∷ opts) = pieces k v ++ all_pieces opts

  -- The entries of an object that are defined, in order, where of a telemetry value only its two fields
  -- are left, and nothing where it has neither.
  unfoldable pub defined : List (String × Option V) → List (String × V)
  defined [] = []
  defined ((k, none) ∷ opts) = defined opts
  defined ((k, some v) ∷ opts) = kept k v ++ defined opts

  pub set_fresh :
      (k : String) (v : V) (m : List (String × V)) → get k m ≡ none → set k v m ≡ m ++ (k, v) ∷ []
  unfolding get set
  set_fresh k v [] f = refl
  set_fresh k v ((j, w) ∷ m) f = ground (arith, set_fresh k v m)

  pub get-append_fresh :
      (c : String) (m n : List (String × V)) → get c m ≡ none → get c (m ++ n) ≡ get c n
  unfolding get
  get-append_fresh c [] n f = refl
  get-append_fresh c ((j, w) ∷ m) n f = ground (arith, get-append_fresh c m n)

  -- Every stored name that an option makes is free.
  unfoldable pub Free : String → List (String × V) → Type 0
  Free k m = (c : String) → owner c ≡ k → get c m ≡ none

  put_given :
      (k : String) (o : Option V) (m : List (String × V))
      → get k m ≡ none
      → set_given tel k o m ≡ m ++ given k o []
  unfolding set_given given
  put_given k none m f = sym (append-nil m)
  put_given k (some v) m f = set_fresh k v m f

  given-append :
      (k : String) (o : Option V) (n : List (String × V)) → given k o n ≡ given k o [] ++ n
  unfolding given
  given-append k none n = refl
  given-append k (some v) n = refl

  pub get-given : (c k : String) (o : Option V) → str_eq k c ≡ false → get c (given k o []) ≡ none
  unfolding given get
  get-given c k none d = refl
  get-given c k (some v) d = rw d refl

  encode_telemetry :
      (v : V) (m : List (String × V))
      → tel.inherited "telemetry" ≡ none
      → Free "telemetry" m
      → encode_entry tel "telemetry" v m ≡ m ++ pieces "telemetry" v
  unfolding Free encode_entry looked_up pieces opts_encode_map opts_decode_map invert_object get set
      owner
  encode_telemetry v m i f =
      let tm = tel.metadata v in
      let omc = tel.omit_context v in
      rw i refl
      ∙ ap (set_given tel "omc" omc) (put_given "tm" tm m (f "tm" refl))
      ∙ put_given "omc" omc (m ++ given "tm" tm []) (
          get-append_fresh "omc" m (given "tm" tm []) (f "omc" refl) ∙ get-given "omc" "tm" tm refl)
      ∙ append_assoc m (given "tm" tm []) (given "omc" omc [])
      ∙ ap (λ n. m ++ n) (sym (given-append "tm" tm (given "omc" omc [])))

  encode_short :
      (k : String) (v : V) (m : List (String × V))
      → str_eq k "telemetry" ≡ false
      → tel.inherited k ≡ none
      → encode_entry tel k v m ≡ set (short k) v m
  unfolding encode_entry looked_up short
  encode_short k v m n i = elim (Option-cases (get k opts_encode_map)) [
    | inl h ↦ rw (encode_entry, looked_up, short, h, i, n) refl
    | inr (c, h) ↦ rw (encode_entry, looked_up, short, h) refl
  ]

  encode_entry_lem :
      (k : String) (v : V) (m : List (String × V))
      → Plain tel.inherited k
      → Free k m
      → encode_entry tel k v m ≡ m ++ pieces k v
  unfolding Free pieces Plain
  encode_entry_lem k v m p f = elim (Bool-cases (str_eq k "telemetry")) [
    | inl e ↦
        subst (λ j. encode_entry tel j v m ≡ m ++ pieces j v) (sym ((eq_iff k "telemetry").0 e))
          (encode_telemetry v m
            (subst (λ j. tel.inherited j ≡ none) ((eq_iff k "telemetry").0 e) p.3)
            (subst (λ j. Free j m) ((eq_iff k "telemetry").0 e) f))
    | inr e ↦ rw e (
        encode_short k v m e p.3
        ∙ set_fresh (short k) v m (f (short k) (owner-short tel.inherited k p)))
  ]

  pub not_made : (k d c : String) → owner d ≡ k → str_eq (owner c) k ≡ false → str_eq d c ≡ false
  not_made k d c o n = ground (arith, eq_iff d c, eq_iff (owner c) k)

  telemetry_fresh :
      (c : String) (tm omc : Option V)
      → str_eq (owner c) "telemetry" ≡ false
      → get c (given "tm" tm (given "omc" omc [])) ≡ none
  unfolding given get owner
  telemetry_fresh c none omc d = get-given c "omc" omc (not_made "telemetry" "omc" c refl d)
  telemetry_fresh c (some m) omc d =
      rw (not_made "telemetry" "tm" c refl d)
        (get-given c "omc" omc (not_made "telemetry" "omc" c refl d))

  get-pieces :
      (k c : String) (v : V)
      → Plain tel.inherited k
      → str_eq (owner c) k ≡ false
      → get c (pieces k v) ≡ none
  unfolding pieces get
  get-pieces k c v p d = elim (Bool-cases (str_eq k "telemetry")) [
    | inl e ↦ rw e (
        telemetry_fresh c (tel.metadata v) (tel.omit_context v)
          (subst (λ j. str_eq (owner c) j ≡ false) ((eq_iff k "telemetry").0 e) d))
    | inr e ↦ rw e (rw (not_made k (short k) c (owner-short tel.inherited k p) d) refl)
  ]

  Free-append :
      (k j : String) (v : V) (m : List (String × V))
      → Plain tel.inherited k
      → str_eq j k ≡ false
      → Free j m
      → Free j (m ++ pieces k v)
  unfolding Free
  Free-append k j v m p d f c o =
      get-append_fresh c m (pieces k v) (f c o) ∙ get-pieces k c v p (ap (λ i. str_eq i k) o ∙ d)

  -- All names of an object have a property.
  unfoldable pub Names : {A : Type 0} → (String → Type 0) → List (String × A) → Type 0
  Names {A} P m = (k : String) (a : A) → get k m ≡ some a → P k

  pub Names-head :
      {A : Type 0} (P : String → Type 0) (k : String) (a : A) (m : List (String × A))
      → Names P ((k, a) ∷ m)
      → P k
  unfolding Names get
  Names-head P k a m p = p k a (rw (eq_refl k) refl)

  pub apart :
      {A : Type 0} (j k : String) (b : A) (m : List (String × A))
      → get k m ≡ none
      → get j m ≡ some b
      → str_eq j k ≡ false
  apart j k b m n h = ground (arith, eq_iff j k)

  pub not_sym : (j k : String) → str_eq j k ≡ false → str_eq k j ≡ false
  not_sym j k d = ground (arith, eq_iff j k, eq_iff k j)

  pub Names-tail :
      {A : Type 0} (P : String → Type 0) (k : String) (a : A) (m : List (String × A))
      → get k m ≡ none
      → Names P ((k, a) ∷ m)
      → Names P m
  unfolding Names get
  Names-tail P k a m n p j b h = p j b (rw (not_sym j k (apart j k b m n h)) h)

  Names-Free :
      (k : String) (v : V) (m : List (String × V)) (opts : List (String × Option V))
      → Plain tel.inherited k
      → get k opts ≡ none
      → Names (λ j. Free j m) opts
      → Names (λ j. Free j (m ++ pieces k v)) opts
  unfolding Names
  Names-Free k v m opts p n f j b h = Free-append k j v m p (apart j k b opts n h) (f j b h)

  pub encode_entries_lem :
      (opts : List (String × Option V)) (m : List (String × V))
      → Unique opts
      → Names (Plain tel.inherited) opts
      → Names (λ k. Free k m) opts
      → encode_entries tel opts m ≡ m ++ all_pieces opts
  unfolding encode_entries all_pieces
  encode_entries_lem [] m u p f = sym (append-nil m)
  encode_entries_lem ((k, none) ∷ opts) m u p f =
      encode_entries_lem opts m u.1 (Names-tail (Plain tel.inherited) k none opts u.0 p)
        (Names-tail (λ j. Free j m) k none opts u.0 f)
  encode_entries_lem ((k, some v) ∷ opts) m u p f =
      let plain = Names-head (Plain tel.inherited) k (some v) opts p in
      let free = Names-tail (λ j. Free j m) k (some v) opts u.0 f in
      ap (encode_entries tel opts)
        (encode_entry_lem k v m plain (Names-head (λ j. Free j m) k (some v) opts f))
      ∙ encode_entries_lem opts (m ++ pieces k v) u.1
          (Names-tail (Plain tel.inherited) k (some v) opts u.0 p)
          (Names-Free k v m opts plain u.0 free)
      ∙ append_assoc m (pieces k v) (all_pieces opts)
