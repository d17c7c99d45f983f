-- ===== src/Flow/Request.antt =====
-- `parse_spec` of velo_flow/spec.py. `failing` is `SpecError` with its code; `crash` is an exception
-- of another type, which no caller takes.
use mcp_velociraptor.Text.{codes}
use mcp_velociraptor.Wire.Validate.{int_between}
use mcp_velociraptor.Protocol.Faults.{Check, Fault, failing, crash, expect, first, item}
use mcp_velociraptor.Flow.Model.{Spec}
use mcp_velociraptor.Prelude.{
  ltb, ◌||◌, not, ◌==◌, length, all, ◌++◌, ◌+◌, ◌*◌, ◌&&◌, ◌∷◌, leb, if◌then◌else◌, [], Option,
  Bool, ◌⊎◌, ℕ, String, List, false, some, none, inl, inr,
}
use mcp_velociraptor.Json.{
  keys, is_text, contains, nil, is_dict, get, Json, null, int, negative, real, str, arr, obj, items,
}

-- How `json.loads` ends on the decoded bytes: with a value, with the `SpecError` that a hook has
-- raised, or with another error.
pub data Loaded : Type 0 where
  loaded : Json → Loaded
  refused : String → Loaded
  unreadable : Loaded

-- What the parser takes from Python: `json.loads`, whether an integer has a float (else
-- `math.isfinite` raises), the value of a literal (none where it is infinite or below 0) in units of
-- time, of which `unit` are a hundredth of a second, and of a path whether it is absolute, whether
-- it has the part "..", and the bytes of its text (none where its encoding raises).
pub record Python : Type 0 where
  pub loads : List ℕ → Loaded
  pub has_float : ℕ → Bool
  pub unit : ℕ
  pub literal : String → Option ℕ
  pub is_absolute : String → Bool
  pub has_parent : String → Bool
  pub encoded_length : String → Option ℕ

-- `SpecData`
pub record Request : Type 0 where
  pub spec : Spec
  pub connection_profile : String
  pub output_dir : String

abbrev pub required_fields : List String
required_fields = "schema" ∷ "flow_id" ∷ "connection_profile" ∷ "output_dir" ∷ "budget" ∷ []

abbrev pub optional_fields : List String
optional_fields = "source" ∷ "page_size" ∷ "sample_fields" ∷ "sample_rows" ∷ []

abbrev pub budget_fields : List String
budget_fields =
    "deadline_seconds" ∷ "request_timeout_seconds" ∷ "max_status_calls" ∷ "max_pages"
    ∷ "max_result_bytes" ∷ "max_log_bytes" ∷ []

abbrev pub fields_in : List String → Json → Bool
fields_in names (obj m) = all (contains names) (keys m)
fields_in names _ = false

abbrev pub has_fields : List String → Json → Bool
has_fields names (obj m) = all (contains (keys m)) names
has_fields names _ = false

-- `value.get(field, default)`
abbrev pub get_or : Json → String → Json → Json
get_or default field value = elim (get field value) [ none ↦ default | some v ↦ v ]

abbrev is_printable : ℕ → Bool
is_printable c = leb 32 c && not (c == 127)

abbrev pub is_text_id : Json → Bool
is_text_id (str s) =
    let cs = codes s in not (length cs == 0) && leb (length cs) 256 && all is_printable cs
is_text_id _ = false

-- `_text_id`
abbrev pub text_id : String → Json → Check
text_id code v = expect (is_text_id v) code

-- `_integer`
abbrev pub integer : ℕ → ℕ → Json → Check
integer low high v = expect (int_between low high v) "invalid_budget"

abbrev pub text_of : Json → String
text_of (str s) = s
text_of _ = ""

abbrev pub integer_of : Json → ℕ
integer_of (int n) = n
integer_of _ = 0

-- an item of the sample fields
abbrev is_field_name : Json → Bool
is_field_name (str s) = let n = length (codes s) in not (n == 0) && leb n 128
is_field_name _ = false

abbrev pub are_field_names : Json → Bool
are_field_names (arr xs) = leb (length (items xs)) 32 && all is_field_name (items xs)
are_field_names _ = false

abbrev pub names_of : List Json → List String
names_of [] = []
names_of (x ∷ xs) = text_of x ∷ names_of xs

abbrev pub list_of : Json → List Json
list_of (arr xs) = items xs
list_of _ = []

abbrev pub source_check : Json → Check
source_check null = none
source_check v = text_id "invalid_source" v

abbrev pub source_of : Json → Option String
source_of null = none
source_of v = some (text_of v)

module _ (py : Python) where
  -- the time of a number, in units
  abbrev pub time_of : Json → Option ℕ
  time_of (int n) = some (n * (100 * py.unit))
  time_of (real s) = py.literal s
  time_of _ = none

  abbrev pub is_time : ℕ → ℕ → Json → Bool
  is_time low high v = elim (time_of v) [ none ↦ false | some t ↦ leb low t && leb t high ]

  abbrev pub finite : Json → Check
  finite (int n) = if py.has_float n then none else some crash
  finite (negative n) = if py.has_float (n + 1) then none else some crash
  finite _ = none

  -- `_number`, with limits in hundredths of a second
  abbrev pub number : ℕ → ℕ → Json → Check
  number low high v =
      first (finite v ∷ expect (is_time (low * py.unit) (high * py.unit) v) "invalid_budget" ∷ [])

  abbrev pub seconds_of : Json → ℕ
  seconds_of v = elim (time_of v) [ none ↦ 0 | some t ↦ t ]

  abbrev is_path : Json → Bool
  is_path (str s) =
      let n = length (codes s) in
      not (n == 0) && leb n 4096 && py.is_absolute s && not (py.has_parent s)
  is_path _ = false

  -- `_absolute_path`
  abbrev pub absolute_path : String → Json → Check
  absolute_path code v = expect (is_path v) code

  abbrev pub short_path : Json → Check
  short_path v = elim (py.encoded_length (text_of v)) [
    | none ↦ some crash
    | some n ↦ expect (leb n 512) "invalid_output_dir"
  ]

  -- the checks of the budget, in the order of its fields
  abbrev pub budget_checks : Json → List Check
  budget_checks b =
      expect (fields_in budget_fields b) "invalid_budget"
      ∷ number 10 360000 (get_or (int 120) "deadline_seconds" b)
      ∷ number 1 12000 (get_or (int 30) "request_timeout_seconds" b)
      ∷ integer 1 512 (get_or (int 64) "max_status_calls" b)
      ∷ integer 1 1000 (get_or (int 100) "max_pages" b)
      ∷ integer 1 268435456 (get_or (int 67108864) "max_result_bytes" b)
      ∷ integer 1048576 268435456 (get_or (int 67108864) "max_log_bytes" b)
      ∷ []

  -- the checks of the other fields
  abbrev pub field_checks : Json → List Check
  field_checks doc =
      source_check (get_or null "source" doc)
      ∷ expect (int_between 1 250 (get_or (int 250) "page_size" doc)) "invalid_page_size"
      ∷ expect (are_field_names (get_or (arr nil) "sample_fields" doc)) "invalid_sample_fields"
      ∷ expect (int_between 0 10 (get_or (int 10) "sample_rows" doc)) "invalid_sample_rows"
      ∷ absolute_path "invalid_output_dir" (item "output_dir" doc)
      ∷ short_path (item "output_dir" doc)
      ∷ text_id "invalid_flow_id" (item "flow_id" doc)
      ∷ absolute_path "invalid_connection_profile" (item "connection_profile" doc)
      ∷ []

  abbrev pub header_checks : Json → List Check
  header_checks doc =
      expect (is_dict doc) "invalid_spec"
      ∷ expect
          (fields_in (required_fields ++ optional_fields) doc && has_fields required_fields doc)
          "invalid_spec"
      ∷ expect (is_text "velo.flow.request.v1" (item "schema" doc)) "invalid_schema"
      ∷ []

  abbrev pub spec_of : Json → Json → Spec
  spec_of doc b = record {
    flow_id = text_of (item "flow_id" doc);
    source = source_of (get_or null "source" doc);
    page_size = integer_of (get_or (int 250) "page_size" doc);
    sample_fields = names_of (list_of (get_or (arr nil) "sample_fields" doc));
    sample_rows = integer_of (get_or (int 10) "sample_rows" doc);
    deadline_seconds = seconds_of (get_or (int 120) "deadline_seconds" b);
    request_timeout_seconds = seconds_of (get_or (int 30) "request_timeout_seconds" b);
    max_status_calls = integer_of (get_or (int 64) "max_status_calls" b);
    max_pages = integer_of (get_or (int 100) "max_pages" b);
    max_result_bytes = integer_of (get_or (int 67108864) "max_result_bytes" b);
    max_log_bytes = integer_of (get_or (int 67108864) "max_log_bytes" b);
  }

  abbrev pub request_of : Json → Request
  request_of doc = record {
    spec = spec_of doc (item "budget" doc);
    connection_profile = text_of (item "connection_profile" doc);
    output_dir = text_of (item "output_dir" doc);
  }

  abbrev pub accept : Check → Request → Request ⊎ Fault
  accept none request = inl request
  accept (some e) request = inr e

  abbrev pub checks : Json → Check
  checks doc = first (
      first (header_checks doc)
      ∷ first (budget_checks (item "budget" doc))
      ∷ first (field_checks doc)
      ∷ [])

  abbrev pub parse_loaded : Loaded → Request ⊎ Fault
  parse_loaded (loaded doc) = accept (checks doc) (request_of doc)
  parse_loaded (refused code) = inr (failing code)
  parse_loaded unreadable = inr (failing "invalid_json")

  unfoldable pub parse_spec : List ℕ → Request ⊎ Fault
  parse_spec raw =
      if (length raw == 0) || ltb 65536 (length raw)
      then inr (failing "spec_too_large")
      else parse_loaded (py.loads raw)
