-- ===== src/Getters/Whole.antt =====
-- What a read of whole states gives (src/classes/queue-getters.ts), in either order.
use elephantmq.Base.{String, ◌∷◌, Bool, [], if◌then◌else◌, List, ◌||◌, ◌++◌}
use mathlib.Core.List.{reverse}
use elephantmq.Getters.{JobType, renamed, is_list_backed}

-- The ids of a state as a read of all of them has them.
abbrev pub whole : (JobType → List String) → Bool → JobType → List String
whole ids_in asc t =
    if is_list_backed (renamed t) || asc then ids_in (renamed t) else reverse (ids_in (renamed t))

abbrev pub all_of : (JobType → List String) → List JobType → List String
all_of f [] = []
all_of f (t ∷ ts) = f t ++ all_of f ts
