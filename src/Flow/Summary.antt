-- ===== src/Flow/Summary.antt =====
-- `build_summary` of velo_flow/coordinator.py. Sizes are those of the UTF-8 bytes that
-- `json.dumps` gives.
use mcp_velociraptor.Json.{Json}
use mcp_velociraptor.Proc.{some_or}
use mcp_velociraptor.Prelude.{
  zero, take, suc, some, none, length, leb, ◌-◌, if◌then◌else◌, Bool, [], Option, List, String, ℕ,
}
use mcp_velociraptor.Flow.Model.{
  result_json_limit, summary_overflow, Reason, failed, stop, Run, Flow, Spec,
}
use mcp_velociraptor.Flow.Coordinator.{RunResult}

pub record Summary : Type 0 where
  pub result : RunResult
  pub flow_id : String
  pub source : Option String
  pub last_state : Option Json
  pub result_pages_fetched : ℕ
  pub result_pages_saved : ℕ
  pub rows_fetched : ℕ
  pub rows_saved : ℕ
  pub next_unread_cursor : Option String
  pub files_count : Option ℕ
  pub files_complete : Option Bool
  pub call_counts : ℕ × ℕ × ℕ
  pub sample_rows : List Json
  pub sample_omitted_count : ℕ
  pub warnings_count : ℕ
  pub calls_complete : Bool
  pub secondary_code : Option Reason

abbrev pub summary_of : Spec → Run → RunResult → List Json → Summary
summary_of spec s result sample = record {
  result = result;
  flow_id = spec.flow_id;
  source = spec.source;
  last_state = s.last_state;
  result_pages_fetched = s.pages_fetched;
  result_pages_saved = s.pages_saved;
  rows_fetched = s.rows_fetched;
  rows_saved = s.rows_saved;
  next_unread_cursor = s.next_unread_cursor;
  files_count = s.files_count;
  files_complete = s.files_complete;
  call_counts = (s.status_calls, s.results_calls, s.files_calls);
  sample_rows = sample;
  sample_omitted_count = s.rows_saved - length sample;
  warnings_count = s.warnings_count;
  calls_complete = s.calls_complete;
  secondary_code = none;
}

module _ (size : Summary → ℕ) (spec : Spec) where
  -- The `while True`: while the summary is too long, the last row of the sample is popped; n is
  -- the number of rows that are left in it.
  unfoldable pub shrink : Run → RunResult → ℕ → Option Summary
  shrink s result zero =
      let summary = summary_of spec s result [] in
      if leb (size summary) result_json_limit then some summary else none
  shrink s result (suc n) =
      let rest = shrink s result n in
      let summary = summary_of spec s result (take (suc n) s.sample_rows) in
      if leb (size summary) result_json_limit then some summary else rest

  -- `build_summary`, which raises `RunStop("failed", "summary_overflow")`
  unfoldable pub build_summary : RunResult → Flow Summary
  build_summary result s =
      some_or (stop failed summary_overflow) (shrink s result (length s.sample_rows)) s
