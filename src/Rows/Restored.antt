-- ===== src/Rows/Restored.antt =====
-- A job that `fromJSON` makes of a row of src/classes/emq-mappers.ts.
use elephantmq.Base.{
  none, str_eq, false, ◌≡◌, String, Option, [], refl, ℕ, ◌∷◌, List, some, ap, sym, ◌∙◌,
}
use elephantmq.Options.{Objects, opts_from_json, decode_entries, or_empty_object}
use elephantmq.Rows.{
  JobFields, EmqJobRow, map_option, or_text, Runtime, or_else_value, or_value, bind_option, truthy,
}
use elephantmq.Rows.Read.{count_of, read_parent, read_or, get_traces_from_json, from_json}
use elephantmq.Rows.Mapped.{
  number_or_zero, row_to_job_json_raw, parent_key_of, traces_text, deduplication_id_from_opts,
}

-- JSON and the texts of numbers are read back as what was written, and no such text is empty. An
-- empty object has no entries.
pub record IsJson {J : Type 0} (rt : Runtime J) : Type 0 where
  pub parse_stringify : (j : J) → rt.parse (rt.stringify j) ≡ some j
  pub stringify_filled : (j : J) → str_eq (rt.stringify j) "" ≡ false
  pub parse_int_number : (n : ℕ) → rt.parse_int (rt.number n) ≡ some n
  pub number_filled : (n : ℕ) → str_eq (rt.number n) "" ≡ false
  pub read_texts : (ts : List String) → bind_option (rt.parse (rt.traces ts)) rt.texts_of ≡ some ts
  pub traces_filled : (ts : List String) → str_eq (rt.traces ts) "" ≡ false
  pub no_texts : rt.traces [] ≡ "[]"
  pub no_entries : rt.entries rt.empty_object ≡ []
  pub parse_null : rt.parse "null" ≡ some rt.null_value

pub bind-some {ℓ κ} :
    {A : Type ℓ} {B : Type κ} {o : Option A} {a : A} (f : A → Option B)
    → o ≡ some a
    → bind_option o f ≡ f a
unfolding bind_option
bind-some f e = ap (λ x. bind_option x f) e

pub truthy-or_value : (t : Option String) → truthy (some (or_value t "")) ≡ truthy t
unfolding truthy
truthy-or_value none = refl
truthy-or_value (some t) = refl

module _ {J : Type 0} (rt : Runtime J) where
  -- What the constructor makes of the name, the payload, the options in full and the id.
  unfoldable pub constructed :
      Objects J → (Option String → J → J → Option String → JobFields J) → EmqJobRow J → JobFields J
  constructed tel construct row =
      construct (some row.name) (or_value row.«data» rt.empty_object)
        (rt.object (decode_entries tel (rt.entries (or_value row.opts rt.empty_object)) []))
        (or_else_value (truthy (some row.job_id)) none)

  -- The job that holds a row: as it is constructed, with the other columns in their fields and
  -- the constructor's values where such a column is null.
  unfoldable pub restored :
      Objects J → (Option String → J → J → Option String → JobFields J) → EmqJobRow J → JobFields J
  unfolding constructed
  restored tel construct row =
      let job = constructed tel construct row in
      let deduplication =
        or_else_value row.deduplication_id (deduplication_id_from_opts rt row.opts) in
      record job {
        progress = or_value row.progress rt.zero_value;
        delay = some (or_value row.delay_ms 0);
        priority = some (or_value row.priority 0);
        timestamp = some row.timestamp;
        finished_on = or_else_value row.finished_on job.finished_on;
        processed_on = or_else_value row.processed_on job.processed_on;
        repeat_job_key = or_else_value (truthy row.repeat_job_key) job.repeat_job_key;
        debounce_id = or_else_value (truthy deduplication) job.debounce_id;
        deduplication_id = or_else_value (truthy deduplication) job.deduplication_id;
        failed_reason = or_else_value (truthy row.failed_reason) job.failed_reason;
        attempts_started = some (or_value row.attempts_started 0);
        attempts_made = some (or_value row.attempts_made 0);
        stalled_counter = some (or_value row.stalled_counter 0);
        deferred_failure = or_else_value (truthy row.deferred_failure) job.deferred_failure;
        stacktrace = or_value row.stacktrace [];
        returnvalue = some (or_value row.return_value rt.null_value);
        parent_key =
            or_else_value (truthy (parent_key_of rt row.parent_job_id row.parent_queue_key))
              job.parent_key;
        parent =
            or_else_value
              (map_option (λ p. rt.parent_object p row.parent_queue_key) (truthy row.parent_job_id))
              job.parent;
        processed_by = or_else_value (truthy row.processed_by) job.processed_by;
        next_repeatable_job_id = job.next_repeatable_job_id;
      }

module _ {J : Type 0} (rt : Runtime J) (law : IsJson rt) where
  pub parse-or_text : (j : J) (d : String) → rt.parse (or_text (some (rt.stringify j)) d) ≡ some j
  unfolding or_text truthy
  parse-or_text j d = rw (law.stringify_filled j) (law.parse_stringify j)

  pub read_or-number :
      (n own : Option ℕ) → read_or rt (map_option rt.number n) own ≡ or_else_value n own
  unfolding read_or map_option truthy
  read_or-number none own = refl
  read_or-number (some n) own = rw (read_or, truthy, law.number_filled n) (law.parse_int_number n)

  pub read_number :
      (n : Option ℕ) → bind_option (number_or_zero rt n) rt.parse_int ≡ some (or_value n 0)
  unfolding number_or_zero bind_option
  read_number n = law.parse_int_number (or_value n 0)

  pub read_timestamp : (n : ℕ) → bind_option (some (rt.number n)) rt.parse_int ≡ some n
  unfolding bind_option
  read_timestamp n = law.parse_int_number n

  pub count_of-number :
      (n : Option ℕ) → count_of rt (number_or_zero rt n) none ≡ some (or_value n 0)
  unfolding count_of number_or_zero truthy
  count_of-number n =
      rw (count_of, truthy, law.number_filled (or_value n 0)) (law.parse_int_number (or_value n 0))

  pub read_traces_text :
      (ts : Option (List String))
      → get_traces_from_json rt (some (traces_text rt ts)) ≡ or_value ts []
  unfolding get_traces_from_json traces_text truthy bind_option
  read_traces_text none =
      rw (get_traces_from_json, sym law.no_texts) (ap (λ o. or_value o []) (law.read_texts []))
  read_traces_text (some []) =
      rw (get_traces_from_json, sym law.no_texts) (ap (λ o. or_value o []) (law.read_texts []))
  read_traces_text (some (t ∷ ts)) =
      rw (get_traces_from_json, truthy, law.traces_filled (t ∷ ts))
        (ap (λ o. or_value o []) (law.read_texts (t ∷ ts)))

  pub opts_from_json-stringify :
      (tel : Objects J) (j : J)
      → opts_from_json tel (λ t. map_option rt.entries (rt.parse t)) (some (rt.stringify j))
        ≡ some (decode_entries tel (rt.entries j) [])
  unfolding opts_from_json or_empty_object map_option
  opts_from_json-stringify tel j =
      rw (opts_from_json, or_empty_object, law.stringify_filled j, law.parse_stringify j) refl

  read_parent-stringify :
      (f : String → J) (p : Option String) (own : Option J)
      → read_parent rt (map_option (λ q. rt.stringify (f q)) p) own
        ≡ some (or_else_value (map_option f p) own)
  unfolding read_parent map_option truthy
  read_parent-stringify f none own = refl
  read_parent-stringify f (some q) own =
      rw (read_parent, truthy, law.stringify_filled (f q))
        (ap (λ o. map_option some o) (law.parse_stringify (f q)))

  pub return_value_text :
      (v : Option J)
      → rt.parse (elim v [ none ↦ "null" | some w ↦ rt.stringify w ])
        ≡ some (or_value v rt.null_value)
  return_value_text none = law.parse_null
  return_value_text (some w) = law.parse_stringify w

  -- Where JSON reads back what it writes, the job that fromJSON makes of a row, by way of the texts of
  -- rowToJobJsonRaw, holds the row: every column is in its field as it was, the options in full, and a
  -- null column as its default or as the constructor left the field.
  from_json-row_to_job_json_raw :
      (tel : Objects J) (construct : Option String → J → J → Option String → JobFields J)
      (row : EmqJobRow J)
      → from_json rt tel construct (row_to_job_json_raw rt row) none
        ≡ some (restored rt tel construct row)
  unfolding restored constructed row_to_job_json_raw from_json truthy
  from_json-row_to_job_json_raw tel construct row =
      bind-some _ (parse-or_text (or_value row.«data» rt.empty_object) "{}")
      ∙ bind-some _ (opts_from_json-stringify tel (or_value row.opts rt.empty_object))
      ∙ bind-some _ (parse-or_text (or_value row.progress rt.zero_value) "0")
      ∙ bind-some _ (
          read_parent-stringify (λ p. rt.parent_object p row.parent_queue_key)
            (truthy row.parent_job_id) _)
      ∙ rw
          (
            read_number row.delay_ms,
            read_number row.priority,
            read_or-number row.finished_on,
            read_or-number row.processed_on,
            count_of-number row.attempts_started,
            count_of-number row.attempts_made,
            count_of-number row.stalled_counter,
            read_traces_text row.stacktrace,
            return_value_text row.return_value,
            read_timestamp row.timestamp,
            truthy-or_value row.failed_reason,
          )
          refl
