-- ===== src/Notify.antt =====
-- The class NotificationManager of src/classes/notification-manager.ts with the listener client that
-- it is wired to. A handler is its number. The client runs its queries in the order in which they
-- were sent, and the answer of one comes before the next is run.
pub mod Heard
pub mod Race
use elephantmq.Base.Texts.{has, without, with_text}
use elephantmq.Base.Maps.{get, set, delete, keys}
use elephantmq.Base.{
  [], true, ◌++◌, none, false, some, Option, remove, ◌||◌, Bool, elem, ◌&&◌, String, ℕ,
  if◌then◌else◌, List, not, ◌∷◌, str_eq,
}
pub mod Tests

abbrev pub with_handler : ℕ → List ℕ → List ℕ
with_handler h hs = if elem h hs then hs else hs ++ h ∷ []

pub record NotificationManager : Type 0 where
  pub channels : List (String × List ℕ)
  pub listening : List String
  pub wired : Bool
  pub closed : Bool

pub data Query : Type 0 where
  listen : String → Query
  unlisten : String → Query

-- `sent` are the queries whose answers have not come, and `listens` what the server listens on for
-- the client.
pub record System : Type 0 where
  pub manager : NotificationManager
  pub sent : List Query
  pub listens : List String

abbrev pub handlers_of : Option (List ℕ) → List ℕ
handlers_of none = []
handlers_of (some hs) = hs

abbrev pub is_none : List ℕ → Bool
is_none [] = true
is_none (h ∷ hs) = false

abbrev pub send : Query → System → System
send q s = record s { sent = s.sent ++ q ∷ [] }

-- The part of `subscribe` behind the registration: nothing is sent without a client, or where the
-- manager takes the channel to be listened on.
unfoldable pub listen_unless : String → System → System
unfolding has
listen_unless channel s =
    if s.manager.wired && not (has channel s.manager.listening) then send (listen channel) s else s

unfoldable pub subscribe : String → ℕ → System → System
unfolding get set listen_unless
subscribe channel handler s =
    if s.manager.closed
    then s
    else (let hs = handlers_of (get channel s.manager.channels) in
        let registered = record s {
          manager = record s.manager {
            channels = set channel (with_handler handler hs) s.manager.channels;
          };
        } in
        if is_none hs then listen_unless channel registered else registered)

-- The last handler of a channel is gone.
unfoldable pub forget : String → System → System
unfolding delete without
forget channel s =
    let left = record s {
      manager = record s.manager {
        channels = delete channel s.manager.channels;
        listening = without channel s.manager.listening;
      };
    } in
    if s.manager.wired && not s.manager.closed then send (unlisten channel) left else left

unfoldable pub unsubscribe : String → ℕ → System → System
unfolding get set forget
unsubscribe channel handler s = elim (get channel s.manager.channels) [
  | none ↦ s
  | some hs ↦
      if is_none (remove handler hs)
      then forget channel
          (record s { manager = record s.manager { channels = set channel [] s.manager.channels } })
      else record s {
        manager = record s.manager {
          channels = set channel (remove handler hs) s.manager.channels;
        };
      }
]

-- The client runs the first query that was sent, and its answer is handled.
unfoldable pub answer : System → System
unfolding with_text without
answer s = elim s.sent [
  | [] ↦ s
  | listen channel ∷ rest ↦ record s {
    sent = rest;
    listens = with_text channel s.listens;
    manager = record s.manager { listening = with_text channel s.manager.listening };
  }
  | unlisten channel ∷ rest ↦ record s { sent = rest; listens = without channel s.listens }
]

abbrev pub all_listen : List String → List String → List String
all_listen [] ss = ss
all_listen (c ∷ cs) ss = all_listen cs (with_text c ss)

-- A new client, whose queries succeed: each channel is listened on again.
unfoldable pub rebind_listener_client : System → System
unfolding with_text
rebind_listener_client s = if s.manager.closed then s else record s {
  manager = record s.manager { wired = true; listening = all_listen (keys s.manager.channels) [] };
  sent = [];
  listens = all_listen (keys s.manager.channels) [];
}

abbrev pub any_prefix : (String → String → Bool) → String → List String → Bool
any_prefix begins channel [] = false
any_prefix begins channel (p ∷ ps) = begins channel p || any_prefix begins channel ps

abbrev pub dropped : (String → String → Bool) → List String → List String → System → System
dropped begins prefixes [] s = s
dropped begins prefixes (c ∷ cs) s =
    let rest = dropped begins prefixes cs s in
    if any_prefix begins c prefixes
    then record rest {
      manager = record rest.manager {
        channels = delete c rest.manager.channels;
        listening = without c rest.manager.listening;
      };
    }
    else rest

unfoldable pub drop_channels_matching : (String → String → Bool) → List String → System → System
unfolding delete without
drop_channels_matching begins prefixes s = dropped begins prefixes (keys s.manager.channels) s

unfoldable pub close : System → System
close s = if s.manager.closed then s else record s {
  manager = record { channels = []; listening = []; wired = false; closed = true };
}

-- The handlers that a notification of the server calls: none where no listener is wired.
unfoldable pub on_notification : String → System → List ℕ
unfolding get
on_notification channel s =
    if s.manager.wired then handlers_of (get channel s.manager.channels) else []
