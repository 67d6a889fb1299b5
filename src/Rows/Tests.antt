-- ===== src/Rows/Tests.antt =====
-- Jobs made of rows of src/classes/emq-mappers.ts, with a small JSON of numbers and lists of texts.
use Prim.Native.String.compare.{cons-nil}
use text.Mathlib.Text.{is_eq}
use Prim.Native.Char.{code, Char}
use elephantmq.Base.{
  zero, ◌==◌, some, String, refl, ◌≡◌, if◌then◌else◌, ap, suc, none, ◌∷◌, List, Option, ℕ, [],
  arith, str_eq, false,
}
use elephantmq.Options.{Objects}
use elephantmq.Rows.Mapped.{row_to_flat_job_fields, json_job_row_from_db}
use elephantmq.Rows.{JobFields, EmqJobRow, map_option, Runtime, or_else_value, bind_option, truthy}
use elephantmq.Rows.Worked.{from_json-json_job_row_from_db}
use elephantmq.Rows.Restored.{IsJson, restored, constructed}
use elephantmq.Rows.Read.{of_flat, from_json}

data Value : Type 0 where
  null : Value
  object : Value
  counted : ℕ → Value
  texts : List String → Value

ones : ℕ → String
ones zero = ""
ones (suc n) = String.◌∷◌ "1" (ones n)

size : String → ℕ
size String.[] = 0
size (String.◌∷◌ c s) = suc (size s)

size-ones : (n : ℕ) → size (ones n) ≡ n
unfolding size ones
size-ones zero = refl
size-ones (suc n) = ap suc (size-ones n)

write_number : ℕ → String
write_number n = String.◌∷◌ "1" (ones n)

read_number : String → Option ℕ
read_number String.[] = none
read_number (String.◌∷◌ c s) = some (size s)

write_text : String → String → String
write_text String.[] rest = String.◌∷◌ "," rest
write_text (String.◌∷◌ c s) rest = String.◌∷◌ ";" (String.◌∷◌ c (write_text s rest))

write_texts : List String → String
write_texts [] = "[]"
write_texts (t ∷ ts) = write_text t (write_texts ts)

lengthen : Char → List String → List String
lengthen c [] = []
lengthen c (t ∷ ts) = String.◌∷◌ c t ∷ ts

read_texts : String → Option (List String)
read_texts String.[] = none
read_texts (String.◌∷◌ c String.[]) = none
read_texts (String.◌∷◌ c (String.◌∷◌ d s)) =
    let next = read_texts (String.◌∷◌ d s) in
    let rest = read_texts s in
    if code c == 44
    then map_option (λ ts. "" ∷ ts) next
    else if code c == 59
    then map_option (lengthen d) rest
    else some []

read_texts-text :
    (t rest : String) (ts : List String)
    → read_texts rest ≡ some ts
    → read_texts (write_text t rest) ≡ some (t ∷ ts)
unfolding read_texts write_text lengthen map_option
read_texts-text String.[] String.[] ts e = ground arith
read_texts-text String.[] (String.◌∷◌ d s) ts e = ap (map_option (λ us. "" ∷ us)) e
read_texts-text (String.◌∷◌ c s) rest ts e =
    ap (map_option (lengthen c)) (read_texts-text s rest ts e)

read_texts-write : (ts : List String) → read_texts (write_texts ts) ≡ some ts
unfolding read_texts write_texts
read_texts-write [] = refl
read_texts-write (t ∷ ts) = read_texts-text t (write_texts ts) ts (read_texts-write ts)

write : Value → String
write null = "null"
write object = "{}"
write (counted n) = write_number n
write (texts ts) = write_texts ts

read : String → Option Value
read String.[] = none
read (String.◌∷◌ c s) =
    if code c == 110
    then some null
    else if code c == 123
    then some object
    else if code c == 49
    then some (counted (size s))
    else map_option texts (read_texts (String.◌∷◌ c s))

read-write_texts : (ts : List String) → read (write_texts ts) ≡ some (texts ts)
unfolding read write_texts write_text map_option read_texts
read-write_texts [] = refl
read-write_texts (String.[] ∷ ts) = ap (map_option texts) (read_texts-write ("" ∷ ts))
read-write_texts (String.◌∷◌ c s ∷ ts) =
    ap (map_option texts) (read_texts-write (String.◌∷◌ c s ∷ ts))

read-write : (v : Value) → read (write v) ≡ some v
unfolding read write write_number
read-write null = refl
read-write object = refl
read-write (counted n) = ap (λ m. some (counted m)) (size-ones n)
read-write (texts ts) = read-write_texts ts

filled : (c : Char) (s : String) → str_eq (String.◌∷◌ c s) "" ≡ false
filled c s = ap is_eq (λ i. cons-nil c s i)

write_texts-filled : (ts : List String) → str_eq (write_texts ts) "" ≡ false
unfolding write_texts write_text
write_texts-filled [] = refl
write_texts-filled (String.[] ∷ ts) = filled "," (write_texts ts)
write_texts-filled (String.◌∷◌ c s ∷ ts) = filled ";" (String.◌∷◌ c (write_text s (write_texts ts)))

write-filled : (v : Value) → str_eq (write v) "" ≡ false
unfolding write write_number
write-filled null = refl
write-filled object = refl
write-filled (counted n) = filled "1" (ones n)
write-filled (texts ts) = write_texts-filled ts

abbrev list_of : Value → Option (List String)
list_of (texts ts) = some ts
list_of null = none
list_of object = none
list_of (counted n) = none

abbrev parent_of : String → Option String → Value
parent_of id none = texts (id ∷ [])
parent_of id (some q) = texts (id ∷ q ∷ [])

abbrev runtime : Runtime Value
runtime = record {
  stringify = write;
  parse = read;
  number = write_number;
  parse_int = read_number;
  traces = write_texts;
  texts_of = list_of;
  entries = λ v. [];
  object = λ m. object;
  id_of = λ v. none;
  text_of = λ v. none;
  parent_object = parent_of;
  empty_object = object;
  zero_value = counted 0;
  null_value = null;
}

runtime-IsJson : IsJson runtime
unfolding write_number read_number write_texts bind_option read
runtime-IsJson = record {
  parse_stringify = read-write;
  stringify_filled = write-filled;
  parse_int_number = λ n. ap (λ m. some m) (size-ones n);
  number_filled = λ n. filled "1" (ones n);
  read_texts = λ ts. ap (λ o. bind_option o list_of) (read-write_texts ts);
  traces_filled = write_texts-filled;
  no_texts = refl;
  no_entries = refl;
  parse_null = refl;
}

abbrev child_row : EmqJobRow Value
child_row = record {
  job_id = "7";
  name = "resize";
  «data» = some (counted 5);
  opts = none;
  priority = some 3;
  delay_ms = none;
  attempts_made = some 1;
  attempts_started = some 2;
  stalled_counter = none;
  failed_reason = some "boom";
  stacktrace = some ("at a" ∷ "at b" ∷ []);
  return_value = none;
  progress = some (counted 50);
  timestamp = 12;
  processed_on = some 20;
  finished_on = none;
  processed_by = some "w";
  parent_job_id = some "4";
  parent_queue_key = some "emq:q";
  repeat_job_key = none;
  deduplication_id = none;
  deferred_failure = none;
}

abbrev made : Option String → Value → Value → Option String → JobFields Value
made name payload opts id = record {
  id = id;
  name = name;
  «data» = payload;
  opts = opts;
  progress = counted 0;
  delay = some 0;
  priority = some 0;
  timestamp = some 0;
  finished_on = none;
  processed_on = none;
  repeat_job_key = none;
  debounce_id = none;
  deduplication_id = none;
  failed_reason = none;
  attempts_started = some 0;
  attempts_made = some 0;
  stalled_counter = some 0;
  deferred_failure = none;
  stacktrace = [];
  returnvalue = none;
  parent_key = none;
  parent = none;
  processed_by = none;
  next_repeatable_job_id = none;
}

abbrev fields : Objects Value
fields = record {
  inherited = λ k. none;
  metadata = λ v. none;
  omit_context = λ v. none;
  with_metadata = λ t v. v;
  with_omit_context = λ t v. v;
}

from_json-json_job_row_from_db_example :
    from_json runtime fields made
      (of_flat runtime (row_to_flat_job_fields runtime (json_job_row_from_db runtime child_row)))
      none
    ≡ some (record (restored runtime fields made child_row) {
      parent = (constructed runtime fields made child_row).parent;
      parent_key =
          or_else_value
            (truthy child_row.parent_job_id)
            (constructed runtime fields made child_row).parent_key;
    })
from_json-json_job_row_from_db_example =
    from_json-json_job_row_from_db runtime runtime-IsJson fields made child_row
