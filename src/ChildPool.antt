-- ===== src/ChildPool.antt =====
-- The class ChildPool of src/classes/child-pool.ts. A child is its number; its file and its pid (none
-- before it has one) are parameters; a pid stays as it is, also that of a thread that was terminated. An await ends a step: what retain does before the child has
-- started is `begin_retain`, what it does afterwards is `finish_retain`.
pub mod Places
pub mod Preserve
pub mod Exclusive
pub mod Reuse
pub mod Tests
use elephantmq.Base.{
  false, remove, ◌++◌, ℕ, ◌==◌, Bool, if◌then◌else◌, none, Result, some, List, Option, ok, String,
  true, err, ◌∷◌, [],
}
use elephantmq.Base.Maps.{get, set}

-- `pop` of an array: the last element and those before it.
unfoldable pub pop {ℓ} : {A : Type ℓ} → List A → Option (List A × A)
pop [] = none
pop (x ∷ xs) = elim (pop xs) [ none ↦ some ([], x) | some (ys, y) ↦ some (x ∷ ys, y) ]

-- The object of retained children: its entry under a pid, deletion and assignment.
unfoldable pub at_pid : ℕ → List (ℕ × ℕ) → Option ℕ
at_pid p [] = none
at_pid p ((k, c) ∷ m) = if k == p then some c else at_pid p m

unfoldable pub dropped : ℕ → List (ℕ × ℕ) → List (ℕ × ℕ)
dropped p [] = []
dropped p ((k, c) ∷ m) = let rest = dropped p m in if k == p then rest else (k, c) ∷ rest

unfoldable pub assigned : ℕ → ℕ → List (ℕ × ℕ) → List (ℕ × ℕ)
unfolding dropped
assigned p c m = (p, c) ∷ dropped p m

abbrev pub children : List (ℕ × ℕ) → List ℕ
children [] = []
children ((k, c) ∷ m) = c ∷ children m

pub record ChildPool : Type 0 where
  pub retained : List (ℕ × ℕ)
  pub free : List (String × List ℕ)

abbrev pub no_children : ChildPool
no_children = record { retained = []; free = [] }

pub data PoolError : Type 0 where
  no_usable_pid : PoolError
  init_failed : String → PoolError
  exited_before_retained : PoolError

unfoldable pub or_none : Option (List ℕ) → List ℕ
or_none none = []
or_none (some cs) = cs

unfoldable pub get_free : String → ChildPool → List ℕ
unfolding or_none get
get_free file q = or_none (get file q.free)

unfoldable pub get_all_free : List (String × List ℕ) → List ℕ
get_all_free [] = []
get_all_free ((file, cs) ∷ m) = cs ++ get_all_free m

unfoldable pub set_free : String → List ℕ → ChildPool → ChildPool
unfolding set
set_free file cs q = record q { free = set file cs q.free }

-- The pool after a call that may throw, which then has changed nothing.
abbrev pub kept : ChildPool → Result PoolError ChildPool → ChildPool
kept q (err e) = q
kept q (ok after) = after

-- The answer to an error, once the child is released or that has thrown.
abbrev pub answered :
    PoolError → ChildPool → Result PoolError ChildPool → ChildPool × Result PoolError ℕ
answered e q (err x) = (q, err x)
answered e q (ok released) = (released, err e)

module _ (process_file : ℕ → String) (pid : ℕ → Option ℕ) where
  unfoldable pub release : ℕ → ChildPool → Result PoolError ChildPool
  unfolding get_free set_free dropped
  release c q = elim (pid c) [
    | none ↦ err no_usable_pid
    | some p ↦
        let left = record q { retained = dropped p q.retained } in
        ok (set_free (process_file c) (get_free (process_file c) left ++ c ∷ []) left)
  ]

  -- What is popped from the free children of a file: a child is retained, or there is none and a
  -- new one is to be started.
  unfoldable pub hand_out :
      String → ChildPool → Option (List ℕ × ℕ) → ChildPool × Result PoolError (Option ℕ)
  unfolding set_free assigned
  hand_out file q none = (set_free file [] q, ok none)
  hand_out file q (some (rest, c)) = elim (pid c) [
    | none ↦ (set_free file rest q, err no_usable_pid)
    | some p ↦ (set_free file rest (record q { retained = assigned p c q.retained }), ok (some c))
  ]

  unfoldable pub begin_retain : String → ChildPool → ChildPool × Result PoolError (Option ℕ)
  unfolding get_free pop hand_out
  begin_retain file q = hand_out file q (pop (get_free file q))

  -- The handler of an error: the child is released, and the error is thrown again.
  unfoldable pub fail : PoolError → ℕ → ChildPool → ChildPool × Result PoolError ℕ
  unfolding release
  fail e c q = answered e q (release c q)

  -- The error of `init`, if there is one, and whether the child has exited.
  unfoldable pub finish_retain :
      ℕ → Option String → Bool → ChildPool → ChildPool × Result PoolError ℕ
  unfolding fail assigned
  finish_retain c (some message) exited q = fail (init_failed message) c q
  finish_retain c none true q = fail exited_before_retained c q
  finish_retain c none false q = elim (pid c) [
    | none ↦ fail no_usable_pid c q
    | some p ↦ (record q { retained = assigned p c q.retained }, ok c)
  ]

  -- The handler of the child's exit, and the first part of `kill`.
  unfoldable pub remove_child : ℕ → ChildPool → Result PoolError ChildPool
  unfolding get_free set_free dropped
  remove_child c q = elim (pid c) [
    | none ↦ err no_usable_pid
    | some p ↦
        let left = record q { retained = dropped p q.retained } in
        ok (set_free (process_file c) (remove c (get_free (process_file c) left)) left)
  ]

  unfoldable pub kill_all : List ℕ → ChildPool → ChildPool
  unfolding remove_child
  kill_all [] q = q
  kill_all (c ∷ cs) q = kill_all cs (kept q (remove_child c q))

  -- The children to be killed, and the pool.
  unfoldable pub clean : ChildPool → List ℕ × ChildPool
  unfolding kill_all get_all_free
  clean q = let all = children q.retained ++ get_all_free q.free in (all, kill_all all no_children)
