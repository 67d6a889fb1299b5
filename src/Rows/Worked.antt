-- ===== src/Rows/Worked.antt =====
-- The same job by a worker's route, as flat fields: src/classes/emq-mappers.ts.
use elephantmq.Base.Maps.{get}
use elephantmq.Base.{
  arith, String, Bool-cases, inl, if◌then◌else◌, str_eq, none, ◌≡◌, inr, Option, List, some, ◌∙◌,
  [], refl, ap, sym, ◌∷◌, eq_iff, false, ℕ,
}
use elephantmq.Options.{Objects}
use elephantmq.Rows.Restored.{
  truthy-or_value, return_value_text, read_timestamp, bind-some, IsJson, read_or-number,
  read_traces_text, count_of-number, parse-or_text, read_number, restored, constructed,
  opts_from_json-stringify,
}
use elephantmq.Rows.Mapped.{
  row_to_flat_job_fields, number_or_zero, row_to_job_json_raw, json_job_row_from_db,
  optional_fields, parent_key_of, traces_text, deduplication_id_from_opts, push_filled,
}
use elephantmq.Rows.{
  JobFields, EmqJobRow, map_option, or_text, Runtime, or_else_value, or_value, JobJsonRaw,
  bind_option, truthy,
}
use elephantmq.Rows.Read.{count_of, read_parent, read_or, of_flat, from_json}

truthy-or_none : (t : Option String) → truthy (or_else_value (truthy t) none) ≡ truthy t
unfolding truthy
truthy-or_none none = refl
truthy-or_none (some t) = elim (Bool-cases (str_eq t "")) [
  | inl e ↦ rw e refl
  | inr e ↦ rw e (rw e refl)
]

module _ {J : Type 0} (rt : Runtime J) where
  -- The value under a key behind a field that may be pushed.
  get-push_filled :
      (k j : String) (v : Option String) (m : List (String × String))
      → get k (push_filled rt j v m)
        ≡ (if str_eq j k then or_else_value (truthy v) (get k m) else get k m)
  unfolding push_filled get truthy
  get-push_filled k j none m = ground arith
  get-push_filled k j (some t) m = elim (Bool-cases (str_eq t "")) [
    | inl e ↦ rw e (ground arith)
    | inr e ↦ rw e (ground arith)
  ]

  -- The fields that a worker's job is made of.
  unfoldable pub flat_json : EmqJobRow J → JobJsonRaw
  flat_json row =
      let raw = row_to_job_json_raw rt row in
      record raw {
        parent = none;
        attempts_made = some (or_text raw.attempts_made "0");
        attempts_started = none;
        stalled_counter = none;
        atm = some (or_text raw.attempts_made "0");
        ats = some (or_text raw.attempts_started "0");
        stc = some (or_text raw.stalled_counter "0");
        failed_reason = some (or_text raw.failed_reason "");
        stacktrace = some (or_text raw.stacktrace "[]");
        returnvalue = some (or_text raw.returnvalue "");
        processed_on = or_else_value (truthy raw.processed_on) none;
        finished_on = or_else_value (truthy raw.finished_on) none;
        parent_key = or_else_value (truthy raw.parent_key) none;
        rjk = or_else_value (truthy raw.rjk) none;
        deid = or_else_value (truthy raw.deid) none;
        pb = or_else_value (truthy raw.pb) none;
        defa = or_else_value (truthy raw.defa) none;
      }

  step : String → String → Option String → Option String → Option String
  step k j v other = if str_eq j k then or_else_value (truthy v) other else other

  get-optional_fields :
      (k : String) (raw : JobJsonRaw)
      → get k (optional_fields rt raw)
        ≡ step k "processedOn" raw.processed_on (
            step k "finishedOn" raw.finished_on (
              step k "parentKey" raw.parent_key (
                step k "rjk" raw.rjk
                  (step k "deid" raw.deid (step k "pb" raw.pb (step k "defa" raw.defa none))))))
  unfolding optional_fields step get
  get-optional_fields k raw =
      get-push_filled k "processedOn" _ _
      ∙ ap (step k "processedOn" raw.processed_on) (
          get-push_filled k "finishedOn" _ _
          ∙ ap (step k "finishedOn" raw.finished_on) (
              get-push_filled k "parentKey" _ _
              ∙ ap (step k "parentKey" raw.parent_key) (
                  get-push_filled k "rjk" _ _
                  ∙ ap (step k "rjk" raw.rjk) (
                      get-push_filled k "deid" _ _
                      ∙ ap (step k "deid" raw.deid) (
                          get-push_filled k "pb" _ _
                          ∙ ap (step k "pb" raw.pb) (get-push_filled k "defa" raw.defa []))))))

  of_flat_lem : (row : EmqJobRow J) → of_flat rt (row_to_flat_job_fields rt row) ≡ flat_json row
  unfolding of_flat row_to_flat_job_fields flat_json row_to_job_json_raw step number_or_zero
  of_flat_lem row =
      let raw = row_to_job_json_raw rt row in
      rw
        (
          get-optional_fields "processedOn" raw,
          get-optional_fields "finishedOn" raw,
          get-optional_fields "parentKey" raw,
          get-optional_fields "rjk" raw,
          get-optional_fields "deid" raw,
          get-optional_fields "pb" raw,
          get-optional_fields "defa" raw,
          get-optional_fields "attemptsStarted" raw,
          get-optional_fields "stalledCounter" raw,
          get-optional_fields "parent" raw,
          get-optional_fields "nrjid" raw,
        )
        refl

module _ {J : Type 0} (rt : Runtime J) (law : IsJson rt) where
  filled : (t d : String) → str_eq t "" ≡ false → or_text (some t) d ≡ t
  unfolding or_text truthy
  filled t d f = rw f refl

  read_or-or_none :
      (t : Option String) (own : Option ℕ)
      → read_or rt (or_else_value (truthy t) none) own ≡ read_or rt t own
  unfolding read_or
  read_or-or_none t own = rw (read_or, truthy-or_none t) refl

  no_parent : (own : Option J) → read_parent rt none own ≡ some own
  unfolding read_parent truthy
  no_parent own = refl

  or_text_empty : (t : String) → or_text (some t) "" ≡ t
  unfolding or_text truthy
  or_text_empty t = elim (Bool-cases (str_eq t "")) [
    | inl e ↦ rw e (sym ((eq_iff t "").0 e))
    | inr e ↦ rw e refl
  ]

  traces_text-filled : (ts : Option (List String)) → str_eq (traces_text rt ts) "" ≡ false
  unfolding traces_text
  traces_text-filled none = refl
  traces_text-filled (some []) = refl
  traces_text-filled (some (t ∷ ts)) = law.traces_filled (t ∷ ts)

  count_of-flat :
      (n : Option ℕ)
      → count_of rt none (some (or_text (number_or_zero rt n) "0")) ≡ some (or_value n 0)
  unfolding number_or_zero count_of truthy
  count_of-flat n =
      rw (filled (rt.number (or_value n 0)) "0" (law.number_filled (or_value n 0)))
        (count_of-number rt law n)

  count_of-both :
      (n : Option ℕ)
      → count_of rt
          (some (or_text (number_or_zero rt n) "0"))
          (some (or_text (number_or_zero rt n) "0"))
        ≡ some (or_value n 0)
  unfolding number_or_zero count_of truthy
  count_of-both n = rw (filled (rt.number (or_value n 0)) "0" (law.number_filled (or_value n 0))) (
      rw (count_of, truthy, law.number_filled (or_value n 0)) (law.parse_int_number (or_value n 0)))

  -- A row by way of flat fields.
  pub from_json-row_to_flat_job_fields :
      (tel : Objects J) (construct : Option String → J → J → Option String → JobFields J)
      (row : EmqJobRow J)
      → from_json rt tel construct (of_flat rt (row_to_flat_job_fields rt row)) none
        ≡ some (record (restored rt tel construct row) {
          parent = (constructed rt tel construct row).parent;
        })
  unfolding restored constructed from_json flat_json row_to_job_json_raw truthy
  from_json-row_to_flat_job_fields tel construct row =
      ap (λ json. from_json rt tel construct json none) (of_flat_lem rt row)
      ∙ bind-some _ (parse-or_text rt law (or_value row.«data» rt.empty_object) "{}")
      ∙ bind-some _ (opts_from_json-stringify rt law tel (or_value row.opts rt.empty_object))
      ∙ bind-some _ (parse-or_text rt law (or_value row.progress rt.zero_value) "0")
      ∙ bind-some _ (no_parent _)
      ∙ rw
          (
            read_number rt law row.delay_ms,
            read_number rt law row.priority,
            read_timestamp rt law row.timestamp,
            read_or-or_none (map_option rt.number row.processed_on) _,
            read_or-or_none (map_option rt.number row.finished_on) _,
            read_or-number rt law row.finished_on,
            read_or-number rt law row.processed_on,
            count_of-flat row.attempts_started,
            count_of-flat row.stalled_counter,
            count_of-both row.attempts_made,
            filled (traces_text rt row.stacktrace) "[]" (traces_text-filled row.stacktrace),
            read_traces_text rt law row.stacktrace,
            or_text_empty (elim row.return_value [ none ↦ "null" | some w ↦ rt.stringify w ]),
            return_value_text rt law row.return_value,
            or_text_empty (or_value row.failed_reason ""),
            truthy-or_value row.failed_reason,
            truthy-or_none (parent_key_of rt row.parent_job_id row.parent_queue_key),
            truthy-or_none row.repeat_job_key,
            truthy-or_none
                (or_else_value row.deduplication_id (deduplication_id_from_opts rt row.opts)),
            truthy-or_none row.processed_by,
            truthy-or_none row.deferred_failure,
          )
          refl

  deduplication_twice :
      (column opts : Option String)
      → or_else_value (or_else_value column opts) opts ≡ or_else_value column opts
  deduplication_twice none none = refl
  deduplication_twice none (some o) = refl
  deduplication_twice (some c) opts = refl

  deduplication_id_from_opts-or_value :
      (opts : Option J)
      → deduplication_id_from_opts rt (some (or_value opts rt.empty_object))
        ≡ deduplication_id_from_opts rt opts
  unfolding deduplication_id_from_opts bind_option
  deduplication_id_from_opts-or_value none = rw law.no_entries refl
  deduplication_id_from_opts-or_value (some opts) = refl

  bare_parent : (id : Option String) → truthy (parent_key_of rt id none) ≡ truthy id
  unfolding parent_key_of truthy
  bare_parent none = refl
  bare_parent (some t) = elim (Bool-cases (str_eq t "")) [
    | inl e ↦ rw (parent_key_of, truthy, e) (rw (truthy, e) refl)
    | inr e ↦ rw (parent_key_of, truthy, e) (rw (truthy, e) refl)
  ]

  -- Where JSON reads back what it writes, a worker's job, that is made of the flat fields of the row that a
  -- statement returned, is the one that holds the row, but for its parent: its parent is the
  -- constructor's, and its parent key is the bare id of the parent, without the parent's queue.
  pub from_json-json_job_row_from_db :
      (tel : Objects J) (construct : Option String → J → J → Option String → JobFields J)
      (row : EmqJobRow J)
      → from_json rt tel construct
          (of_flat rt (row_to_flat_job_fields rt (json_job_row_from_db rt row)))
          none
        ≡ some (record (restored rt tel construct row) {
          parent = (constructed rt tel construct row).parent;
          parent_key =
              or_else_value
                (truthy row.parent_job_id)
                (constructed rt tel construct row).parent_key;
        })
  unfolding restored json_job_row_from_db constructed
  from_json-json_job_row_from_db tel construct row =
      from_json-row_to_flat_job_fields tel construct (json_job_row_from_db rt row)
      ∙ rw
          (
            deduplication_id_from_opts-or_value row.opts,
            deduplication_twice row.deduplication_id (deduplication_id_from_opts rt row.opts),
            bare_parent row.parent_job_id,
          )
          refl
