-- ===== src/Deps.antt =====
-- `loadDependenciesFromPg` of src/classes/emq-job-deps.ts: the dependencies of a parent job, in four
-- buckets. The rows that the queries find are a parameter; their limit and offset are modelled.
pub mod Pages
pub mod Tests
use elephantmq.Base.{
  take, ℕ, Option, some, [], if◌then◌else◌, ◌&&◌, List, length, ◌+◌, String, str_eq, drop, ◌++◌,
  none, ltb, ◌∷◌, not, true, Bool, false, ◌||◌,
}

pub data Status : Type 0 where
  processed pending failed ignored other : Status

-- A row of the join. A value is its JSON text, with none for null.
pub record Row : Type 0 where
  pub status : Status
  pub child_ref : Option String
  pub return_value : Option String
  pub failed_reason : Option String

pub record Buckets : Type 0 where
  pub processed : List (String × Option String)
  pub unprocessed : List String
  pub failed : List String
  pub ignored : List (String × String)

-- `object[key] = value`
unfoldable pub assign {ℓ} : {V : Type ℓ} → String → V → List (String × V) → List (String × V)
assign k v [] = (k, v) ∷ []
assign k v ((j, w) ∷ m) = if str_eq j k then (j, v) ∷ m else (j, w) ∷ assign k v m

abbrev pub or_empty : Option String → String
or_empty none = ""
or_empty (some s) = s

-- A reference that is null or empty is left out.
abbrev pub ref_of : Row → Option String
ref_of r = elim r.child_ref [ none ↦ none | some s ↦ if str_eq s "" then none else some s ]

abbrev file_under : String → Row → Status → Buckets → Buckets
file_under key r processed b = record b { processed = assign key r.return_value b.processed }
file_under key r pending b = record b { unprocessed = b.unprocessed ++ key ∷ [] }
file_under key r failed b = record b { failed = b.failed ++ key ∷ [] }
file_under key r ignored b = record b { ignored = assign key (or_empty r.failed_reason) b.ignored }
file_under key r other b = b

abbrev file_row : Row → Buckets → Buckets
file_row r b = elim (ref_of r) [ none ↦ b | some key ↦ file_under key r r.status b ]

-- With no bucket asked for, every row is filed.
unfoldable pub file_all : List Row → Buckets → Buckets
file_all [] b = b
file_all (r ∷ rows) b = file_all rows (file_row r b)

abbrev pub listpack_threshold : ℕ
listpack_threshold = 71

-- A cursor and a count, where they are given.
pub record PageOptions : Type 0 where
  pub cursor : Option ℕ
  pub count : Option ℕ

abbrev pub or_else_ℕ : Option ℕ → ℕ → ℕ
or_else_ℕ none d = d
or_else_ℕ (some n) d = n

-- The rows of one bucket that a call gives, of all those there are, and the next cursor.
unfoldable pub page : List Row → PageOptions → List Row × ℕ
page rows o =
    let cur = or_else_ℕ o.cursor 0 in
    let paginate = ltb listpack_threshold (length rows) in
    let found = if paginate then take (or_else_ℕ o.count 20) (drop cur rows) else rows in
    (found, if paginate && ltb (cur + length found) (length rows) then cur + length found else 0)

unfoldable pub keyed : List Row → List (String × Option String) → List (String × Option String)
keyed [] m = m
keyed (r ∷ rows) m =
    keyed rows (elim (ref_of r) [ none ↦ m | some key ↦ assign key r.return_value m ])

unfoldable pub reasons : List Row → List (String × String) → List (String × String)
reasons [] m = m
reasons (r ∷ rows) m =
    reasons rows (elim (ref_of r) [ none ↦ m | some key ↦ assign key (or_empty r.failed_reason) m ])

unfoldable pub refs : List Row → List String
refs [] = []
refs (r ∷ rows) = elim (ref_of r) [ none ↦ refs rows | some key ↦ key ∷ refs rows ]

-- What is asked for, and what is given: a bucket with its next cursor.
pub record DependenciesOptions : Type 0 where
  pub processed : Option PageOptions
  pub unprocessed : Option PageOptions
  pub ignored : Option PageOptions
  pub failed : Option PageOptions

pub record Dependencies : Type 0 where
  pub processed : Option (List (String × Option String) × ℕ)
  pub unprocessed : Option (List String × ℕ)
  pub ignored : Option (List (String × String) × ℕ)
  pub failed : Option (List String × ℕ)

abbrev ask_for {ℓ} : {B : Type ℓ} → Option PageOptions → List Row → (List Row → B) → Option (B × ℕ)
ask_for none rows read = none
ask_for (some o) rows read = let (found, next) = page rows o in some (read found, next)

-- The calls for single buckets; `of_status` gives a status its rows, ordered by their references.
pub load_buckets : (Status → List Row) → DependenciesOptions → Dependencies
unfolding page keyed reasons refs
load_buckets of_status o = record {
  processed = ask_for o.processed (of_status processed) (λ rows. keyed rows []);
  unprocessed = ask_for o.unprocessed (of_status pending) refs;
  ignored = ask_for o.ignored (of_status ignored) (λ rows. reasons rows []);
  failed = ask_for o.failed (of_status failed) refs;
}

-- A call: nothing for a parent that is not there, every row filed where no bucket is asked for, and
-- otherwise the pages of the buckets.
pub data Loaded : Type 0 where
  nothing : Loaded
  filed : Buckets → Loaded
  paged : Dependencies → Loaded

abbrev is_given {ℓ} : {A : Type ℓ} → Option A → Bool
is_given none = false
is_given (some a) = true

abbrev pub no_rows : Buckets
no_rows = record { processed = []; unprocessed = []; failed = []; ignored = [] }

pub load_dependencies : Bool → List Row → (Status → List Row) → DependenciesOptions → Loaded
unfolding file_all load_buckets
load_dependencies found rows of_status o =
    if not found
    then nothing
    else if is_given o.processed
        || is_given o.unprocessed
        || is_given o.ignored
        || is_given o.failed
    then paged (load_buckets of_status o)
    else filed (file_all rows no_rows)
