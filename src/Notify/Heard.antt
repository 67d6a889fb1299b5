-- ===== src/Notify/Heard.antt =====
-- Each call of src/classes/notification-manager.ts waits for its answer before the next begins.
use elephantmq.Base.Texts.{with_text, has, without, has-with_text, has-without}
use elephantmq.Base.Maps.{
  Unique, set-Unique, delete-Unique, get-set, get-delete_self, get-delete_other, keys, set, get,
  delete,
}
use elephantmq.Base.{
  String, some, Bool, none, str_eq, Bool-cases, inr, false, [], inl, ap, ◌∷◌, Option, ◌∙◌, ℕ, List,
  ◌≡◌, true, refl, sym, subst, eq_iff, arith, ◌||◌, Option-cases, remove, ◌≢◌,
}
use elephantmq.Notify.Race.{wired_system}
use elephantmq.Notify.{
  System, rebind_listener_client, drop_channels_matching, listen_unless, answer, set, subscribe,
  unsubscribe, handlers_of, with_handler, all_listen, is_none, any_prefix, forget, dropped,
  on_notification, send, unlisten, listen,
}

abbrev is_some : Option (List ℕ) → Bool
is_some none = false
is_some (some hs) = true

-- A channel that has handlers is taken to be listened on, and the server listens on what is taken so.
pub record Heard (m : List (String × List ℕ)) (l ls : List String) : Type 0 where
  pub unique : Unique m
  pub held : (c : String) → is_some (get c m) ≡ true → has c l ≡ true
  pub listened : (c : String) → has c l ≡ true → has c ls ≡ true

-- The manager is wired, and nothing is under way.
pub record IsHeard (s : System) : Type 0 where
  pub channels : List (String × List ℕ)
  pub listening : List String
  pub listens : List String
  pub state : s ≡ wired_system channels listening listens
  pub heard : Heard channels listening listens

pub data Call : Type 0 where
  subscribes : String → ℕ → Call
  unsubscribes : String → ℕ → Call
  rebinds : Call
  drops : (String → String → Bool) → List String → Call

-- A call and the answer that it waits for, if it has sent a query.
abbrev pub called : Call → System → System
called (subscribes channel handler) s = answer (subscribe channel handler s)
called (unsubscribes channel handler) s = answer (unsubscribe channel handler s)
called rebinds s = rebind_listener_client s
called (drops begins prefixes) s = drop_channels_matching begins prefixes s

abbrev pub called_all : List Call → System → System
called_all [] s = s
called_all (c ∷ cs) s = called_all cs (called c s)

set-Heard :
    (channel : String) (hs : List ℕ) (m : List (String × List ℕ)) (l ls : List String)
    → Heard m l ls
    → Heard (set channel hs m) (with_text channel l) (with_text channel ls)
set-Heard channel hs m l ls g = record {
  unique = set-Unique channel hs m g.unique;
  held = λ c h. has-with_text c channel l ∙ elim (Bool-cases (str_eq channel c)) [
    | inl e ↦ rw e refl
    | inr e ↦ rw e (g.held c (sym (ap is_some (get-set channel c hs m ∙ rw e refl)) ∙ h))
  ];
  listened = λ c h. has-with_text c channel ls ∙ elim (Bool-cases (str_eq channel c)) [
    | inl e ↦ rw e refl
    | inr e ↦ rw e (g.listened c (sym (has-with_text c channel l ∙ rw e refl) ∙ h))
  ];
}

delete-Heard :
    (channel : String) (m : List (String × List ℕ)) (l ls ls' : List String)
    → Heard m l ls
    → ((c : String) → str_eq channel c ≡ false → has c ls ≡ true → has c ls' ≡ true)
    → Heard (delete channel m) (without channel l) ls'
delete-Heard channel m l ls ls' g more = record {
  unique = delete-Unique channel m g.unique;
  held = λ c h. has-without c channel l ∙ elim (Bool-cases (str_eq channel c)) [
    | inl e ↦ absurd (
        cc (
          h,
          ap is_some (
              subst (λ x. get x (delete channel m) ≡ none) ((eq_iff channel c).0 e)
                (get-delete_self channel m g.unique)),
        ))
    | inr e ↦ rw e (g.held c (sym (ap is_some (get-delete_other channel c m e)) ∙ h))
  ];
  listened = λ c h. elim (Bool-cases (str_eq channel c)) [
    | inl e ↦
        let out : has c (without channel l) ≡ false = has-without c channel l ∙ rw e refl in
        absurd (cc (h, out))
    | inr e ↦ more c e (g.listened c (sym (has-without c channel l ∙ rw e refl) ∙ h))
  ];
}

with_text_same : (c : String) (ss : List String) → has c ss ≡ true → with_text c ss ≡ ss
unfolding with_text
with_text_same c ss h = rw h refl

unsubscribed :
    (channel : String) (m : List (String × List ℕ)) (l ls : List String)
    → Heard m l ls
    → has channel l ≡ false
    → get channel m ≡ none
unsubscribed channel m l ls g h = elim (Option-cases (get channel m)) [
  | inl e ↦ e
  | inr (hs, e) ↦ absurd (cc (h, g.held channel (ap is_some e)))
]

abbrev added : String → ℕ → List (String × List ℕ) → List (String × List ℕ)
added channel handler m = set channel (with_handler handler (handlers_of (get channel m))) m

subscribe-again :
    (channel : String) (handler : ℕ) (m : List (String × List ℕ)) (l ls : List String)
    → has channel l ≡ true
    → subscribe channel handler (wired_system m l ls) ≡ wired_system (added channel handler m) l ls
unfolding subscribe listen_unless
subscribe-again channel handler m l ls h = elim (Option-cases (get channel m)) [
  | inl e ↦ rw (e, h) refl
  | inr ([], e) ↦ rw (e, h) refl
  | inr (x ∷ hs, e) ↦ rw e refl
]

subscribe-new :
    (channel : String) (handler : ℕ) (m : List (String × List ℕ)) (l ls : List String)
    → get channel m ≡ none
    → has channel l ≡ false
    → subscribe channel handler (wired_system m l ls)
      ≡ send (listen channel) (wired_system (added channel handler m) l ls)
unfolding subscribe listen_unless
subscribe-new channel handler m l ls e h = rw e (rw h refl)

subscribe_lem :
    (channel : String) (handler : ℕ) (m : List (String × List ℕ)) (l ls : List String)
    → Heard m l ls
    → answer (subscribe channel handler (wired_system m l ls))
      ≡ wired_system (added channel handler m) (with_text channel l) (with_text channel ls)
unfolding answer
subscribe_lem channel handler m l ls g = elim (Bool-cases (has channel l)) [
  | inl h ↦
      ap answer (subscribe-again channel handler m l ls h)
      ∙ ap (wired_system (added channel handler m) l)
          (sym (with_text_same channel ls (g.listened channel h)))
      ∙ ap (λ x. wired_system (added channel handler m) x (with_text channel ls))
          (sym (with_text_same channel l h))
  | inr h ↦ ap answer (subscribe-new channel handler m l ls (unsubscribed channel m l ls g h) h)
]

kept-Heard :
    (channel : String) (hs : List ℕ) (m : List (String × List ℕ)) (l ls : List String)
    → Heard m l ls
    → has channel l ≡ true
    → Heard (set channel hs m) l ls
kept-Heard channel hs m l ls g h =
    subst (λ x. Heard (set channel hs m) l x) (with_text_same channel ls (g.listened channel h))
      (subst (λ x. Heard (set channel hs m) x (with_text channel ls)) (with_text_same channel l h)
        (set-Heard channel hs m l ls g))

-- One channel that is dropped.
abbrev drop_one : String → System → System
drop_one c s = record s {
  manager = record s.manager {
    channels = delete c s.manager.channels;
    listening = without c s.manager.listening;
  };
}

-- The three ways in which `unsubscribe` goes.
unsubscribe-none :
    (channel : String) (handler : ℕ) (m : List (String × List ℕ)) (l ls : List String)
    → get channel m ≡ none
    → unsubscribe channel handler (wired_system m l ls) ≡ wired_system m l ls
unfolding unsubscribe
unsubscribe-none channel handler m l ls e = rw (e, unsubscribe) refl

unsubscribe-last :
    (channel : String) (handler : ℕ) (hs : List ℕ) (m : List (String × List ℕ)) (l ls : List String)
    → get channel m ≡ some hs
    → is_none (remove handler hs) ≡ true
    → unsubscribe channel handler (wired_system m l ls)
      ≡ send
          (unlisten channel)
          (wired_system (delete channel (set channel [] m)) (without channel l) ls)
unfolding unsubscribe forget
unsubscribe-last channel handler hs m l ls e last = rw (e, unsubscribe, last) refl

unsubscribe-more :
    (channel : String) (handler : ℕ) (hs : List ℕ) (m : List (String × List ℕ)) (l ls : List String)
    → get channel m ≡ some hs
    → is_none (remove handler hs) ≡ false
    → unsubscribe channel handler (wired_system m l ls)
      ≡ wired_system (set channel (remove handler hs) m) l ls
unfolding unsubscribe
unsubscribe-more channel handler hs m l ls e more = rw (e, unsubscribe, more) refl

unsubscribe-IsHeard :
    (channel : String) (handler : ℕ) (m : List (String × List ℕ)) (l ls : List String)
    → Heard m l ls
    → IsHeard (answer (unsubscribe channel handler (wired_system m l ls)))
unfolding answer
unsubscribe-IsHeard channel handler m l ls g = elim (Option-cases (get channel m)) [
  | inl e ↦ record {
    channels = m;
    listening = l;
    listens = ls;
    state = ap answer (unsubscribe-none channel handler m l ls e);
    heard = g;
  }
  | inr (hs, e) ↦
      let h = g.held channel (ap is_some e) in
      elim (Bool-cases (is_none (remove handler hs))) [
        | inl last ↦ record {
          channels = delete channel (set channel [] m);
          listening = without channel l;
          listens = without channel ls;
          state = ap answer (unsubscribe-last channel handler hs m l ls e last);
          heard =
              delete-Heard channel (set channel [] m) l ls (without channel ls)
                (kept-Heard channel [] m l ls g h) (λ c n k. has-without c channel ls ∙ rw n k);
        }
        | inr more ↦ record {
          channels = set channel (remove handler hs) m;
          listening = l;
          listens = ls;
          state = ap answer (unsubscribe-more channel handler hs m l ls e more);
          heard = kept-Heard channel (remove handler hs) m l ls g h;
        }
      ]
]

all_listen-has :
    (c : String) (ks ss : List String) → has c (all_listen ks ss) ≡ (has c ks || has c ss)
unfolding has
all_listen-has c [] ss = refl
all_listen-has c (k ∷ ks) ss =
    all_listen-has c ks (with_text k ss)
    ∙ ap (λ b. has c ks || b) (has-with_text c k ss)
    ∙ ground arith

get-other :
    (c k : String) (v : List ℕ) (m : List (String × List ℕ))
    → str_eq k c ≡ false
    → get c ((k, v) ∷ m) ≡ get c m
unfolding get
get-other c k v m e = rw e refl

keys-has :
    (c : String) (m : List (String × List ℕ)) → is_some (get c m) ≡ true → has c (keys m) ≡ true
unfolding has get
keys-has c [] h = cc
keys-has c ((k, v) ∷ m) h = elim (Bool-cases (str_eq k c)) [
  | inl e ↦ rw e refl
  | inr e ↦ rw e (keys-has c m (sym (ap is_some (get-other c k v m e)) ∙ h))
]

dropped-IsHeard :
    (begins : String → String → Bool) (prefixes ks : List String) (s : System)
    → IsHeard s
    → IsHeard (dropped begins prefixes ks s)
dropped-IsHeard begins prefixes [] s g = g
dropped-IsHeard begins prefixes (k ∷ ks) s g =
    let rest = dropped-IsHeard begins prefixes ks s g in
    elim (Bool-cases (any_prefix begins k prefixes)) [
      | inl e ↦ rw e (record {
        channels = delete k rest.channels;
        listening = without k rest.listening;
        listens = rest.listens;
        state = ap (drop_one k) rest.state;
        heard = delete-Heard k _ _ _ _ rest.heard (λ c n h. h);
      })
      | inr e ↦ rw e rest
    ]

called-IsHeard : (c : Call) (s : System) → IsHeard s → IsHeard (called c s)
unfolding rebind_listener_client drop_channels_matching
called-IsHeard (subscribes channel handler) s g = record {
  channels = _;
  listening = _;
  listens = _;
  state =
      ap (λ x. answer (subscribe channel handler x)) g.state
      ∙ subscribe_lem channel handler g.channels g.listening g.listens g.heard;
  heard = set-Heard channel _ _ _ _ g.heard;
}
called-IsHeard (unsubscribes channel handler) s g =
    subst (λ x. IsHeard (answer (unsubscribe channel handler x))) (sym g.state)
      (unsubscribe-IsHeard channel handler g.channels g.listening g.listens g.heard)
called-IsHeard rebinds s g = record {
  channels = g.channels;
  listening = all_listen (keys g.channels) [];
  listens = all_listen (keys g.channels) [];
  state = ap rebind_listener_client g.state;
  heard = record {
    unique = g.heard.unique;
    held = λ c h. all_listen-has c (keys g.channels) [] ∙ rw (keys-has c g.channels h) refl;
    listened = λ c h. h;
  };
}
called-IsHeard (drops begins prefixes) s g = dropped-IsHeard begins prefixes _ s g

called_all-IsHeard : (cs : List Call) (s : System) → IsHeard s → IsHeard (called_all cs s)
called_all-IsHeard [] s g = g
called_all-IsHeard (c ∷ cs) s g = called_all-IsHeard cs (called c s) (called-IsHeard c s g)

notified_some :
    (channel : String) (m : List (String × List ℕ)) (l ls : List String)
    → on_notification channel (wired_system m l ls) ≢ []
    → is_some (get channel m) ≡ true
unfolding on_notification
notified_some channel m l ls h = elim (Option-cases (get channel m)) [
  | inl e ↦ absurd (h (rw e refl))
  | inr (hs, e) ↦ ap is_some e
]

-- Where each call waits for its answer and the queries succeed, the server listens, for a wired
-- client, on every channel of which a notification would call some handler, after any history of
-- subscriptions, of new clients and of dropped channels.
pub called_all-heard :
    (cs : List Call) (s : System) (channel : String)
    → IsHeard s
    → on_notification channel (called_all cs s) ≢ []
    → has channel (called_all cs s).listens ≡ true
called_all-heard cs s channel g h =
    let after = called_all-IsHeard cs s g in
    let handled = subst (λ x. on_notification channel x ≢ []) after.state h in
    let listened =
      after.heard.listened channel
        (after.heard.held channel (notified_some channel after.channels _ _ handled)) in
    subst (λ x. has channel x.listens ≡ true) (sym after.state) listened
