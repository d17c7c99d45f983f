-- ===== src/Flow/Log.antt =====
-- What is known of the calls and of `calls.jsonl` of velo_flow/coordinator.py, while it runs and when
-- it has ended.
use mcp_velociraptor.Bytes.{total}
use mcp_velociraptor.Flow.Sink.{marker}
use mcp_velociraptor.Json.{Json}
use mcp_velociraptor.Flow.Model.{log_slot_reserve, Tool, World, Spec, Run}
use mcp_velociraptor.Prelude.{some, ◌⊎◌, false, Bool, ◌++◌, [], ◌∷◌, ◌≡◌, ◌≤◌, ◌+◌, ℕ, List}

-- What the run knows of its calls.
pub record Tally : Type 0 where
  pub calls : List (List ℕ)
  pub calls_bytes : ℕ
  pub calls_complete : Bool
  pub status_calls : ℕ
  pub results_calls : ℕ
  pub files_calls : ℕ

abbrev pub tally : Run → Tally
tally s = record {
  calls = s.calls;
  calls_bytes = s.calls_bytes;
  calls_complete = s.calls_complete;
  status_calls = s.status_calls;
  results_calls = s.results_calls;
  files_calls = s.files_calls;
}

-- The budgets hold even after a more status calls, b more pages, c more lists of files and d more
-- bytes of log.
pub record HasRoom (spec : Spec) (a b c d : ℕ) (t : Tally) : Type 0 where
  pub status_within : t.status_calls + a ≤ spec.max_status_calls
  pub results_within : t.results_calls + b ≤ spec.max_pages
  pub files_within : t.files_calls + c ≤ 1
  pub counted : t.calls_bytes ≡ total t.calls
  pub log_within : t.calls_bytes + d ≤ spec.max_log_bytes

-- The log ends with the marker of an oversized record, and a whole slot of it was free before.
pub record IsOverrun (w : World) (limit : ℕ) (t : Tally) : Type 0 where
  pub incomplete : t.calls_complete ≡ false
  pub earlier : List (List ℕ)
  pub tool : Tool
  pub args : Json
  pub line : List ℕ
  pub dumped : w.dumps (marker tool args) ≡ some line
  pub last : t.calls ≡ earlier ++ (line ++ b'\n' ∷ []) ∷ []
  pub free : total earlier + log_slot_reserve ≤ limit

-- the calls and the log of a run that has ended
pub record IsLogged (spec : Spec) (w : World) (t : Tally) : Type 0 where
  pub status_in : t.status_calls ≤ spec.max_status_calls
  pub results_in : t.results_calls ≤ spec.max_pages
  pub files_in : t.files_calls ≤ 1
  pub counted : t.calls_bytes ≡ total t.calls
  pub log_in : (t.calls_bytes ≤ spec.max_log_bytes) ⊎ IsOverrun w spec.max_log_bytes t
