-- ===== src/Notify/Race.antt =====
-- A channel that is given up while its LISTEN is under way (src/classes/notification-manager.ts).
use elephantmq.Base.Texts.{has, without}
use elephantmq.Base.Maps.{Unique, delete, set}
use elephantmq.Base.{[], none, ℕ, ◌∷◌, false, true, List, String, ◌≡◌}
use elephantmq.Notify.{System, subscribe, get, answer, unsubscribe, send, listen, unlisten}

-- A wired manager, with nothing under way.
abbrev pub wired_system : List (String × List ℕ) → List String → List String → System
wired_system channels listening listens = record {
  manager = record { channels = channels; listening = listening; wired = true; closed = false };
  sent = [];
  listens = listens;
}

-- The first handler of a channel comes and goes before its LISTEN is answered; both answers come;
-- and another handler subscribes.
abbrev pub raced : String → ℕ → ℕ → System → System
raced channel first second s =
    subscribe channel second
      (answer (answer (unsubscribe channel first (subscribe channel first s))))

module _ (channel : String) (first second : ℕ) (m : List (String × List ℕ)) (l ls : List String)
    (new : get channel m ≡ none) (unique : Unique m) (unheard : has channel l ≡ false) where
  abbrev after_first : System
  after_first = send (listen channel) (wired_system (set channel (first ∷ []) m) l ls)

  abbrev left : List (String × List ℕ)
  left = delete channel (set channel [] (set channel (first ∷ []) m))

  abbrev after_both : System
  after_both =
      send (unlisten channel) (send (listen channel) (wired_system left (without channel l) ls))
