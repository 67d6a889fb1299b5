-- ===== src/Notify/Tests.antt =====
-- Runs of src/classes/notification-manager.ts.
use elephantmq.Base.Texts.{with_text, has}
use elephantmq.Base.Maps.{get, set}
use elephantmq.Base.{◌∷◌, [], ◌≡◌, refl, true, List}
use elephantmq.Notify.{
  listen_unless, rebind_listener_client, on_notification, System, subscribe, unsubscribe, answer,
}
use elephantmq.Notify.Heard.{
  called_all-heard, called_all, IsHeard, Call, subscribes, unsubscribes, rebinds,
}
use elephantmq.Notify.Race.{wired_system}

abbrev empty_system : System
empty_system = wired_system [] [] []

empty_system-IsHeard : IsHeard empty_system
unfolding get has
empty_system-IsHeard = record {
  channels = [];
  listening = [];
  listens = [];
  state = refl;
  heard = record { unique = tt; held = λ c h. cc; listened = λ c h. h };
}

abbrev history : List Call
history = subscribes "emq_m_1" 5 ∷ subscribes "emq_m_1" 6 ∷ unsubscribes "emq_m_1" 5 ∷ rebinds ∷ []

called_all-heard_example : has "emq_m_1" (called_all history empty_system).listens ≡ true
unfolding on_notification subscribe unsubscribe rebind_listener_client answer listen_unless get set
    has with_text
called_all-heard_example =
    called_all-heard history empty_system "emq_m_1" empty_system-IsHeard (λ e. cc)
