-- ===== src/Keys.antt =====
-- src/classes/queue-keys.ts, `mapListKeyToState` of src/classes/scripts/helpers.ts and the check of
-- a queue's name in src/classes/queue-base.ts. Texts are lists of code points.
pub mod States
pub mod Tests
use Prim.Native.Char.{code}
use elephantmq.Base.{
  [], String, false, some, ℕ, true, if◌then◌else◌, Option, ◌||◌, List, none, ◌==◌, Bool, ◌++◌, ◌∷◌,
  ◌&&◌,
}

abbrev pub Text : Type 0
Text = List ℕ

-- The code points of a literal.
abbrev pub codes : String → Text
codes String.[] = []
codes (String.◌∷◌ c s) = code c ∷ codes s

abbrev pub colon : ℕ
colon = b':'

unfoldable pub starts_with : Text → Text → Bool
starts_with s [] = true
starts_with [] (p ∷ ps) = false
starts_with (c ∷ cs) (p ∷ ps) = c == p && starts_with cs ps

-- `s.includes(p)`
unfoldable pub includes : Text → Text → Bool
unfolding starts_with
includes [] p = starts_with [] p
includes (c ∷ cs) p = starts_with (c ∷ cs) p || includes cs p

pub data JobState : Type 0 where
  wait paused delayed prioritized completed failed waiting_children active : JobState

abbrev pub name_of : JobState → Text
name_of wait = codes "wait"
name_of paused = codes "paused"
name_of delayed = codes "delayed"
name_of prioritized = codes "prioritized"
name_of completed = codes "completed"
name_of failed = codes "failed"
name_of waiting_children = codes "waiting-children"
name_of active = codes "active"

abbrev pub qualified_name : Text → Text → Text
qualified_name prefix name = prefix ++ colon ∷ name

abbrev pub to_key : Text → Text → Text → Text
to_key prefix name kind = qualified_name prefix name ++ colon ∷ kind

abbrev pub mentions : Text → JobState → Bool
mentions key s = includes key (colon ∷ name_of s)

-- The first state that is mentioned, and the wait list where none is.
abbrev pub first_of : (JobState → Bool) → JobState
first_of test =
    if test paused
    then paused
    else if test delayed
    then delayed
    else if test prioritized
    then prioritized
    else if test completed
    then completed
    else if test failed
    then failed
    else if test waiting_children
    then waiting_children
    else if test active
    then active
    else wait

unfoldable pub map_list_key_to_state : Text → JobState
map_list_key_to_state key = first_of (mentions key)

pub data NameError : Type 0 where
  not_provided contains_colon : NameError

pub check_name : Text → Option NameError
check_name [] = some not_provided
check_name (c ∷ cs) = if includes (c ∷ cs) (colon ∷ []) then some contains_colon else none
