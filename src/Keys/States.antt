-- ===== src/Keys/States.antt =====
-- From the key of a list back to the state (`mapListKeyToState` of src/classes/scripts/helpers.ts).
use elephantmq.Base.{
  ap, [], true, false, ◌≡◌, refl, ◌||◌, ==_refl, ◌≢◌, ◌∷◌, ◌==◌, arith, ◌&&◌, ◌++◌, not, Bool,
  append_assoc, ◌∙◌,
}
use elephantmq.Keys.{
  map_list_key_to_state, JobState, starts_with, waiting_children, qualified_name, to_key, Text,
  name_of, wait, colon, includes, mentions, paused, delayed, prioritized, completed, failed,
  first_of, active,
}

-- A text mentions none of the states that are looked for.
abbrev pub IsClear : Text → Type 0
IsClear key = (s : JobState) → s ≢ wait → mentions key s ≡ false

abbrev no_colon : Text → Bool
no_colon [] = true
no_colon (c ∷ cs) = not (c == colon) && no_colon cs

name_of-no_colon : (s : JobState) → no_colon (name_of s) ≡ true
name_of-no_colon wait = refl
name_of-no_colon paused = refl
name_of-no_colon delayed = refl
name_of-no_colon prioritized = refl
name_of-no_colon completed = refl
name_of-no_colon failed = refl
name_of-no_colon waiting_children = refl
name_of-no_colon active = refl

-- A pattern without a colon does not reach past one.
starts_with-colon :
    (a k p : Text) → no_colon p ≡ true → starts_with (a ++ colon ∷ k) p ≡ starts_with a p
unfolding starts_with
starts_with-colon [] k [] n = refl
starts_with-colon [] k (c ∷ p) n = ground arith
starts_with-colon (x ∷ a) k [] n = refl
starts_with-colon (x ∷ a) k (c ∷ p) n =
    ap (λ b. (x == c) && b) (starts_with-colon a k p (ground arith))

or_assoc : (a b c : Bool) → (a || (b || c)) ≡ ((a || b) || c)
or_assoc true b c = refl
or_assoc false b c = refl

includes-colon :
    (a k p : Text)
    → no_colon p ≡ true
    → includes (a ++ colon ∷ k) (colon ∷ p)
      ≡ (includes a (colon ∷ p) || includes (colon ∷ k) (colon ∷ p))
unfolding includes starts_with
includes-colon [] k p n = refl
includes-colon (x ∷ a) k p n =
    rw (starts_with-colon a k p n, includes-colon a k p n)
      (or_assoc (x == colon && starts_with a p) (includes a (colon ∷ p))
        (includes (colon ∷ k) (colon ∷ p)))

starts_with-append : (s t : Text) → starts_with (s ++ t) s ≡ true
unfolding starts_with
starts_with-append [] [] = refl
starts_with-append [] (c ∷ t) = refl
starts_with-append (c ∷ s) t = rw (==_refl c) (starts_with-append s t)

includes_here : (s p : Text) → starts_with s p ≡ true → includes s p ≡ true
unfolding includes
includes_here [] p h = h
includes_here (c ∷ s) p h = rw h

includes-append : (a s p : Text) → starts_with s p ≡ true → includes (a ++ s) p ≡ true
unfolding includes
includes-append [] s p h = includes_here s p h
includes-append (c ∷ a) s p h = rw (includes-append a s p h) (ground arith)

first_of_same :
    (f g : JobState → Bool) → ((s : JobState) → s ≢ wait → f s ≡ g s) → first_of f ≡ first_of g
first_of_same f g h = rw (
  h paused (λ e. cc),
  h delayed (λ e. cc),
  h prioritized (λ e. cc),
  h completed (λ e. cc),
  h failed (λ e. cc),
  h waiting_children (λ e. cc),
  h active (λ e. cc),
)

-- Among the names of the states, none begins with another that is looked for.
first_of_name : (s : JobState) → first_of (mentions (colon ∷ name_of s)) ≡ s
unfolding includes starts_with
first_of_name wait = refl
first_of_name paused = refl
first_of_name delayed = refl
first_of_name prioritized = refl
first_of_name completed = refl
first_of_name failed = refl
first_of_name waiting_children = refl
first_of_name active = refl

-- Where the prefix and the queue's name mention no state, the key of the list of each state is read
-- as that state.
pub map_list_key_to_state-to_key :
    (prefix name : Text) (s : JobState)
    → IsClear (qualified_name prefix name)
    → map_list_key_to_state (to_key prefix name (name_of s)) ≡ s
unfolding map_list_key_to_state
map_list_key_to_state-to_key prefix name s clear =
    first_of_same (mentions (to_key prefix name (name_of s))) (mentions (colon ∷ name_of s)) (λ t n.
      includes-colon (qualified_name prefix name) (name_of s) (name_of t) (name_of-no_colon t)
      ∙ ap (λ b. b || mentions (colon ∷ name_of s) t) (clear t n))
    ∙ first_of_name s

-- The key of every list of a queue whose name begins with "paused" is read as that of the paused one.
map_list_key_to_state-paused :
    (prefix rest kind : Text)
    → map_list_key_to_state (to_key prefix (name_of paused ++ rest) kind) ≡ paused
unfolding map_list_key_to_state
map_list_key_to_state-paused prefix rest kind =
    let here : mentions (to_key prefix (name_of paused ++ rest) kind) paused ≡ true =
      ap (λ key. includes key (colon ∷ name_of paused))
        (append_assoc prefix (colon ∷ name_of paused ++ rest) (colon ∷ kind))
      ∙ includes-append prefix _ _ (
          ap (λ key. starts_with key (colon ∷ name_of paused))
            (append_assoc (colon ∷ name_of paused) rest (colon ∷ kind))
          ∙ starts_with-append (colon ∷ name_of paused) (rest ++ colon ∷ kind)) in
    rw here
