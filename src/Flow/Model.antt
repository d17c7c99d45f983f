-- ===== src/Flow/Model.antt =====
-- velo_flow/spec.py and velo_flow/coordinator.py: the request, the run's state, and what the run
-- meets outside of itself. Times are whole numbers of one small unit.
use mcp_velociraptor.Prelude.{ℕ, ◌+◌, ◌-◌, String, Bool, true, false, Option, none, List, [], ◌∷◌}
use mcp_velociraptor.Json.{Json}
use mcp_velociraptor.Proc.{Proc, ok, err}

pub data Tool : Type 0 where
  get_flow_status get_flow_results list_flow_files : Tool

abbrev pub tool_name : Tool → String
tool_name get_flow_status = "get_flow_status"
tool_name get_flow_results = "get_flow_results"
tool_name list_flow_files = "list_flow_files"

abbrev pub required_tools : List Tool
required_tools = get_flow_status ∷ get_flow_results ∷ list_flow_files ∷ []

abbrev pub list_tools_max_pages : ℕ
list_tools_max_pages = 16

abbrev pub log_record_limit : ℕ
log_record_limit = 1048576

abbrev pub log_slot_reserve : ℕ
log_slot_reserve = 1048576

abbrev pub result_json_limit : ℕ
result_json_limit = 16384

abbrev pub sample_row_limit : ℕ
sample_row_limit = 4096

abbrev pub summary_code_limit : ℕ
summary_code_limit = 128

pub data Outcome : Type 0 where
  partial failed complete : Outcome

-- The reasons with which a run stops; `reported` is a code that a tool gave.
pub data Reason : Type 0 where
  deadline_exceeded request_timeout call_failed log_budget invalid_arguments : Reason
  tool_error protocol_error schema_mismatch duplicate_tool tools_missing schema_invalid : Reason
  status_budget flow_error result_budget page_budget filelist_truncated : Reason
  raw_record_too_large io_error summary_overflow finished : Reason
  reported : String → Reason

-- `stop` is `RunStop`; `crash` stands for a KeyError, TypeError or ValueError that no handler
-- takes, and `cancelled` for `asyncio.CancelledError`.
pub data Stop : Type 0 where
  stop : Outcome → Reason → Stop
  crash cancelled : Stop

pub record Spec : Type 0 where
  pub flow_id : String
  pub source : Option String
  pub page_size : ℕ
  pub sample_fields : List String
  pub sample_rows : ℕ
  pub deadline_seconds : ℕ
  pub request_timeout_seconds : ℕ
  pub max_status_calls : ℕ
  pub max_pages : ℕ
  pub max_result_bytes : ℕ
  pub max_log_bytes : ℕ

-- A tool's metadata, as `list_tools` gives it.
pub record Listed : Type 0 where
  pub name : String
  pub input_schema : Json
  pub output_schema : Json

pub record Listing : Type 0 where
  pub tools : List Listed
  pub next_cursor : Option String

-- `CallToolResult`
pub record Answer : Type 0 where
  pub is_error : Bool
  pub structured_content : Option Json

-- How `asyncio.wait_for` ends: with the result, `TimeoutError`, `CancelledError` or another one.
pub data Arrival (A : Type 0) : Type 0 where
  arrived : A → Arrival A
  timed_out interrupted broken : Arrival A

-- What the run meets outside of itself: the n-th reading of the clock, the n-th write to a file
-- (true if it succeeds), the n-th awaited call under a timeout, `jsonschema`, and `json.dumps`.
pub record World : Type 0 where
  pub clock : ℕ → ℕ
  pub writable : ℕ → Bool
  pub list_tools : ℕ → ℕ → Option String → Arrival Listing
  pub call_tool : ℕ → ℕ → Tool → Json → Arrival Answer
  pub check_schema : Json → Bool
  pub is_valid : Json → Json → Bool
  pub dumps : Json → Option (List ℕ)
  pub dump_contract : List Listed → Option (List ℕ)
  pub dump_call : Tool → Json → Answer → Option (List ℕ)

-- `OutputSink` and the attributes of `FlowHostCoordinator`. `calls` and `rows` are the lines in
-- the two files; `reads`, `writes` and `asked` count the uses of the world.
pub record Run : Type 0 where
  pub calls : List (List ℕ)
  pub rows : List (List ℕ)
  pub calls_bytes : ℕ
  pub rows_bytes : ℕ
  pub calls_complete : Bool
  pub contract_written : Bool
  pub status_calls : ℕ
  pub results_calls : ℕ
  pub files_calls : ℕ
  pub validators : List (Tool × (Json × Json))
  pub warnings_count : ℕ
  pub pages_fetched : ℕ
  pub pages_saved : ℕ
  pub rows_fetched : ℕ
  pub rows_saved : ℕ
  pub next_unread_cursor : Option String
  pub files_count : Option ℕ
  pub files_complete : Option Bool
  pub sample_rows : List Json
  pub last_state : Option Json
  pub deadline : ℕ
  pub downgrade : Option (Outcome × Reason)
  pub reads : ℕ
  pub writes : ℕ
  pub asked : ℕ

-- `__init__` of both classes
abbrev pub start : Run
start = record {
  calls = [];
  rows = [];
  calls_bytes = 0;
  rows_bytes = 0;
  calls_complete = true;
  contract_written = false;
  status_calls = 0;
  results_calls = 0;
  files_calls = 0;
  validators = [];
  warnings_count = 0;
  pages_fetched = 0;
  pages_saved = 0;
  rows_fetched = 0;
  rows_saved = 0;
  next_unread_cursor = none;
  files_count = none;
  files_complete = none;
  sample_rows = [];
  last_state = none;
  deadline = 0;
  downgrade = none;
  reads = 0;
  writes = 0;
  asked = 0;
}

abbrev pub Flow : Type 0 → Type 0
Flow A = Proc Run Stop A

abbrev pub fail : {A : Type 0} → Reason → Flow A
fail r s = err (stop failed r) s

-- `time.monotonic()`
unfoldable pub monotonic : World → Flow ℕ
monotonic w s = ok (w.clock s.reads) (record s { reads = s.reads + 1 })

-- `_remaining`: the seconds that are left, 0 when the deadline has passed
unfoldable pub remaining : World → Flow ℕ
remaining w s = ok (s.deadline - w.clock s.reads) (record s { reads = s.reads + 1 })
