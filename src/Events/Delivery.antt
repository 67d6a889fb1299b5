-- ===== src/Events/Delivery.antt =====
-- What a consumer of src/classes/queue-events.ts emits, while rows are added to the table and deleted.
use elephantmq.Base.{
  ◌++◌, ◌∷◌, ◌≤◌, Bool, append-nil, some, refl, arith, max, ℕ, take, sym, false, true, ap,
  append_assoc, ◌∙◌, String, Option, ◌≡◌, none, List, [], length-drop, zero, take-append-drop, suc,
  length, eq-nil_of_length, drop, ◌*◌, subst, Bool-cases, inr, inl, if◌then◌else◌,
}
use elephantmq.Events.{
  Value, emit_rows, QueueEvents, emit_row, take_answer, consume_round, on_wait_timeout,
  on_events_channel_notification, EventRow, last_of, consume, close, batch, wake_event_waiters,
}
use elephantmq.Events.Pending.{
  Ascending-pending, Ascending, last_of-ge, last_of-le, pending-taken, pending, pending-new,
  pending-append, AtMost-pending, AtMost-higher, AtMost, AtMost-take, survivors-read,
  AtMost-last_of, Ascending-append, survivors-pending, Ascending-filter, last_of-AtMost,
  AtMost-append, survivors-append, survivors,
}

abbrev pub consumer_at : ℕ → QueueEvents
consumer_at start = record {
  last_id = start;
  emitted = [];
  event_wait_resolvers = [];
  next_waiter = 0;
  woken = [];
  closing = false;
}

module _ (parse : String → Value) where
  emit_rows-append :
      (rs ss : List EventRow)
      → emit_rows parse (rs ++ ss) ≡ emit_rows parse rs ++ emit_rows parse ss
  unfolding emit_rows
  emit_rows-append [] ss = refl
  emit_rows-append (r ∷ rs) ss =
      ap (◌++◌ (emit_row parse r)) (emit_rows-append rs ss)
      ∙ sym (append_assoc (emit_row parse r) _ _)

  take_answer-last :
      (manager : Bool) (rows : List EventRow) (q : QueueEvents)
      → (take_answer parse manager rows q).last_id ≡ last_of q.last_id rows
  unfolding take_answer consume
  take_answer-last true [] q = refl
  take_answer-last false [] q = refl
  take_answer-last true (r ∷ rs) q = refl
  take_answer-last false (r ∷ rs) q = refl

  take_answer-emitted :
      (manager : Bool) (rows : List EventRow) (q : QueueEvents)
      → (take_answer parse manager rows q).emitted ≡ q.emitted ++ emit_rows parse rows
  unfolding take_answer consume emit_rows
  take_answer-emitted true [] q = sym (append-nil q.emitted)
  take_answer-emitted false [] q = sym (append-nil q.emitted)
  take_answer-emitted true (r ∷ rs) q = refl
  take_answer-emitted false (r ∷ rs) q = refl

  take_answer-closing :
      (manager : Bool) (rows : List EventRow) (q : QueueEvents)
      → (take_answer parse manager rows q).closing ≡ q.closing
  unfolding take_answer consume
  take_answer-closing true [] q = refl
  take_answer-closing false [] q = refl
  take_answer-closing true (r ∷ rs) q = refl
  take_answer-closing false (r ∷ rs) q = refl

  -- The highest id that was visible, the rows behind `start` that there were, but for those that were
  -- deleted before the consumer read them, the table, and a consumer that began at `start`. Rows become
  -- visible above all ids before them. Rows up to an id are deleted, as a new event and the trimmer do,
  -- read or not. The answer of a query that was sent before the closing can come behind it.
  pub data Reach (start : ℕ) : ℕ → List EventRow → List EventRow → QueueEvents → Type 0 where
    begins :
        (top : ℕ) (table : List EventRow)
        → Ascending 1 table
        → AtMost top table
        → Reach start top (pending start table) table (consumer_at start)
    commits :
        {top : ℕ} {told table : List EventRow} {q : QueueEvents} (rows : List EventRow)
        → Ascending (suc top) rows
        → Reach start top told table q
        → Reach start (last_of top rows) (told ++ pending start rows) (table ++ rows) q
    deletes :
        {top : ℕ} {told table : List EventRow} {q : QueueEvents} (cut : ℕ)
        → Reach start top told table q
        → Reach start top (survivors q.last_id cut told) (pending cut table) q
    polls :
        {top : ℕ} {told table : List EventRow} {q : QueueEvents} (manager : Bool)
        → Reach start top told table q
        → Reach start top told table (consume_round parse manager (some table) q)
    answers_late :
        {top : ℕ} {told table : List EventRow} {q : QueueEvents} (manager : Bool)
        → Reach start top told table q
        → Reach start top told table (take_answer parse manager (batch q.last_id table) q)
    fails_to_poll :
        {top : ℕ} {told table : List EventRow} {q : QueueEvents} (manager : Bool)
        → Reach start top told table q
        → Reach start top told table (consume_round parse manager none q)
    is_notified :
        {top : ℕ} {told table : List EventRow} {q : QueueEvents} (ours : String → Bool)
        (payload : Option String)
        → Reach start top told table q
        → Reach start top told table (on_events_channel_notification ours payload q)
    times_out :
        {top : ℕ} {told table : List EventRow} {q : QueueEvents} (waiter : ℕ)
        → Reach start top told table q
        → Reach start top told table (on_wait_timeout waiter q)
    closes :
        {top : ℕ} {told table : List EventRow} {q : QueueEvents}
        → Reach start top told table q
        → Reach start top told table (close q)

  -- The rows were read up to the last id and emitted, and the others are those that are pending.
  record Delivers (start top : ℕ) (told table : List EventRow) (q : QueueEvents) : Type 0 where
    read : List EventRow
    split : told ≡ read ++ pending q.last_id table
    bounded : AtMost q.last_id read
    said : q.emitted ≡ emit_rows parse read
    ordered : Ascending 1 table
    highest : AtMost top table
    after_start : start ≤ q.last_id
    seen : q.last_id ≤ max start top

  same_Delivers :
      {start top : ℕ} {told table : List EventRow} {q r : QueueEvents}
      → r.last_id ≡ q.last_id
      → r.emitted ≡ q.emitted
      → Delivers start top told table q
      → Delivers start top told table r
  same_Delivers {table = table} l e d = record {
    read = d.read;
    split = d.split ∙ ap (λ i. d.read ++ pending i table) (sym l);
    bounded = subst (λ i. AtMost i d.read) (sym l) d.bounded;
    said = e ∙ d.said;
    ordered = d.ordered;
    highest = d.highest;
    after_start = omega (arith, l, d.after_start);
    seen = omega (arith, l, d.seen);
  }

  answer_Delivers :
      {start top : ℕ} {told table : List EventRow} {q : QueueEvents} (manager : Bool)
      → Delivers start top told table q
      → Delivers start top told table (take_answer parse manager (batch q.last_id table) q)
  unfolding batch
  answer_Delivers {start} {top} {told} {table} {q} manager d =
      let p = pending q.last_id table in
      let sorted = Ascending-pending q.last_id 1 table d.ordered in
      let last = take_answer-last manager (take 200 p) q in
      let ge = last_of-ge q.last_id 200 p sorted in
      record {
        read = d.read ++ take 200 p;
        split =
            d.split
            ∙ ap (◌++◌ d.read) (sym (take-append-drop 200 p))
            ∙ sym (append_assoc d.read (take 200 p) (drop 200 p))
            ∙ ap (λ l. (d.read ++ take 200 p) ++ l)
                (sym
                  (ap (λ i. pending i table) last ∙ pending-taken q.last_id 200 1 table d.ordered));
        bounded =
            subst (λ i. AtMost i (d.read ++ take 200 p)) (sym last)
              (AtMost-append _ d.read (take 200 p) (AtMost-higher q.last_id _ d.read ge d.bounded)
                (AtMost-take q.last_id 200 p sorted));
        said =
            take_answer-emitted manager (take 200 p) q
            ∙ ap (λ l. l ++ emit_rows parse (take 200 p)) d.said
            ∙ sym (emit_rows-append d.read (take 200 p));
        ordered = d.ordered;
        highest = d.highest;
        after_start = omega (arith, last, d.after_start, ge);
        seen = omega (
          arith,
          last,
          d.seen,
          last_of-AtMost top q.last_id 200 p (AtMost-pending top q.last_id table d.highest),
        );
      }

  poll_Delivers :
      {start top : ℕ} {told table : List EventRow} {q : QueueEvents} (manager : Bool)
      → Delivers start top told table q
      → Delivers start top told table (consume_round parse manager (some table) q)
  unfolding consume_round batch
  poll_Delivers {start} {top} {told} {table} {q} manager d =
      let answered = take_answer parse manager (batch q.last_id table) q in
      elim (Bool-cases q.closing) [
        | inl c ↦ subst (λ b. Delivers start top told table (if b then q else answered)) (sym c) d
        | inr c ↦
            subst (λ b. Delivers start top told table (if b then q else answered)) (sym c)
              (answer_Delivers manager d)
      ]

  commit_Delivers :
      {start top : ℕ} {told table : List EventRow} {q : QueueEvents} (rows : List EventRow)
      → Ascending (suc top) rows
      → Delivers start top told table q
      → Delivers start (last_of top rows) (told ++ pending start rows) (table ++ rows) q
  commit_Delivers {start} {top} {told} {table} {q} rows a d =
      let higher = last_of-le top rows a in
      let new =
        pending-new start q.last_id top (suc top) rows a (omega arith) d.after_start d.seen in
      record {
        read = d.read;
        split =
            ap (λ l. l ++ pending start rows) d.split
            ∙ append_assoc d.read (pending q.last_id table) (pending start rows)
            ∙ ap (λ l. d.read ++ (pending q.last_id table ++ l)) (sym new)
            ∙ ap (◌++◌ d.read) (sym (pending-append q.last_id table rows));
        bounded = d.bounded;
        said = d.said;
        ordered = Ascending-append 1 top table rows d.ordered d.highest (omega arith) a;
        highest =
            AtMost-append _ table rows (AtMost-higher top _ table higher d.highest)
              (AtMost-last_of top rows a);
        after_start = d.after_start;
        seen = omega (arith, d.seen, higher);
      }

  delete_Delivers :
      {start top : ℕ} {told table : List EventRow} {q : QueueEvents} (cut : ℕ)
      → Delivers start top told table q
      → Delivers start top (survivors q.last_id cut told) (pending cut table) q
  delete_Delivers {start} {top} {told} {table} {q} cut d = record {
    read = d.read;
    split =
        ap (survivors q.last_id cut) d.split
        ∙ survivors-append q.last_id cut d.read (pending q.last_id table)
        ∙ ap (λ l. l ++ survivors q.last_id cut (pending q.last_id table))
            (survivors-read q.last_id cut d.read d.bounded)
        ∙ ap (◌++◌ d.read) (survivors-pending q.last_id cut table);
    bounded = d.bounded;
    said = d.said;
    ordered = Ascending-filter cut 1 table d.ordered;
    highest = AtMost-pending top cut table d.highest;
    after_start = d.after_start;
    seen = d.seen;
  }

  Reach-Delivers :
      {start top : ℕ} {told table : List EventRow} {q : QueueEvents}
      → Reach start top told table q
      → Delivers start top told table q
  unfolding consume_round on_events_channel_notification wake_event_waiters on_wait_timeout close
      emit_rows
  Reach-Delivers {start} (begins top table a m) = record {
    read = [];
    split = refl;
    bounded = tt;
    said = refl;
    ordered = a;
    highest = m;
    after_start = omega arith;
    seen = omega arith;
  }
  Reach-Delivers (commits rows a r) = commit_Delivers rows a (Reach-Delivers r)
  Reach-Delivers (deletes cut r) = delete_Delivers cut (Reach-Delivers r)
  Reach-Delivers (polls manager r) = poll_Delivers manager (Reach-Delivers r)
  Reach-Delivers (answers_late manager r) = answer_Delivers manager (Reach-Delivers r)
  Reach-Delivers (fails_to_poll manager r) = Reach-Delivers r
  Reach-Delivers (is_notified ours none r) = same_Delivers refl refl (Reach-Delivers r)
  Reach-Delivers {q = q} (is_notified ours (some payload) r) =
      same_Delivers (ground arith) (ground arith) (Reach-Delivers r)
  Reach-Delivers (times_out waiter r) =
      same_Delivers (ground arith) (ground arith) (Reach-Delivers r)
  Reach-Delivers (closes r) = same_Delivers (ground arith) (ground arith) (Reach-Delivers r)

  -- Where every row becomes visible above all ids before it, in every state of a consumer that began
  -- behind the id `start`: leave out of the rows behind `start` that there were those that were deleted
  -- before the consumer read them; then what it has emitted, followed by what the rows of the table
  -- that it has not read yet will make it emit, is what these rows give, each once and in their order.
  pub Reach-delivers :
      {start top : ℕ} {told table : List EventRow} {q : QueueEvents}
      → Reach start top told table q
      → q.emitted ++ emit_rows parse (pending q.last_id table) ≡ emit_rows parse told
  Reach-delivers {told = told} {table} {q} r =
      let d = Reach-Delivers r in
      ap (λ l. l ++ emit_rows parse (pending q.last_id table)) d.said
      ∙ sym (emit_rows-append d.read (pending q.last_id table))
      ∙ ap (emit_rows parse) (sym d.split)

  -- A number of rounds whose queries succeed.
  abbrev pub polled : ℕ → Bool → List EventRow → QueueEvents → QueueEvents
  polled zero manager table q = q
  polled (suc n) manager table q =
      polled n manager table (consume_round parse manager (some table) q)

  polled-Reach :
      (n : ℕ) (manager : Bool) {start top : ℕ} {told table : List EventRow} {q : QueueEvents}
      → Reach start top told table q
      → Reach start top told table (polled n manager table q)
  polled-Reach zero manager r = r
  polled-Reach (suc n) manager r = polled-Reach n manager (polls manager r)

  consume_round-open :
      (manager : Bool) (table : List EventRow) (q : QueueEvents)
      → q.closing ≡ false
      → consume_round parse manager (some table) q
        ≡ take_answer parse manager (take 200 (pending q.last_id table)) q
  unfolding consume_round batch
  consume_round-open manager table q o =
      ap (λ b. if b then q else take_answer parse manager (take 200 (pending q.last_id table)) q) o

  polled-pending :
      (n : ℕ) (manager : Bool) {start top : ℕ} {told table : List EventRow} {q : QueueEvents}
      → Reach start top told table q
      → q.closing ≡ false
      → length (pending q.last_id table) ≤ 200 * n
      → pending (polled n manager table q).last_id table ≡ []
  polled-pending zero manager r o h = eq-nil_of_length _ (omega (arith, h))
  polled-pending (suc n) manager {table = table} {q} r o h =
      let p = pending q.last_id table in
      let round = consume_round-open manager table q o in
      let now =
        ap (λ s. pending s.last_id table) round
        ∙ ap (λ l. pending l table) (take_answer-last manager (take 200 p) q)
        ∙ pending-taken q.last_id 200 1 table (Reach-Delivers r).ordered in
      polled-pending n manager (polls manager r)
        (ap (λ s. s.closing) round ∙ take_answer-closing manager (take 200 p) q ∙ o)
        (omega (arith, h, ap length now, length-drop 200 p))

  -- Where every row became visible above all ids before it, a consumer that is not closing has emitted
  -- the rows behind its start, but for those that were deleted before it read them, each once and in
  -- order, after one round for each 200 rows that are pending, if the queries succeed and meanwhile
  -- nothing is committed or deleted and the consumer is not closed.
  pub polled-all :
      (n : ℕ) (manager : Bool) {start top : ℕ} {told table : List EventRow} {q : QueueEvents}
      → Reach start top told table q
      → q.closing ≡ false
      → length (pending q.last_id table) ≤ 200 * n
      → (polled n manager table q).emitted ≡ emit_rows parse told
  unfolding emit_rows
  polled-all n manager {table = table} {q} r o h =
      sym (append-nil _)
      ∙ ap (λ x. (polled n manager table q).emitted ++ emit_rows parse x)
          (sym (polled-pending n manager r o h))
      ∙ Reach-delivers (polled-Reach n manager r)
