-- ===== src/Flow/Calls.antt =====
-- `_bounded`, `_call` and `_checked` of velo_flow/coordinator.py.
use Prim.Native.String.{len}
use text.Mathlib.Text.{◌==◌ as str_eq}
use mcp_velociraptor.Prelude.{
  ℕ, ◌+◌, String, Bool, true, false, not, ◌&&◌, Option, none, some, List, [], ◌∷◌, leb, ◌==◌, min,
  if◌then◌else◌,
}
use mcp_velociraptor.Json.{Json, str, get, is_text, is_dict}
use mcp_velociraptor.Proc.{ok, err, pure, raise, gets, modify, require, some_or, ◌>>=◌, ◌>>◌}
use mcp_velociraptor.Flow.Model.{
  Tool, get_flow_status, get_flow_results, list_flow_files, tool_name, World, Run, Spec, Answer,
  Arrival, arrived, timed_out, interrupted, broken, Flow, stop, crash, cancelled, failed, partial,
  fail, deadline_exceeded, request_timeout, call_failed, log_budget, invalid_arguments, Reason,
  tool_error, protocol_error, schema_mismatch, reported, log_slot_reserve, summary_code_limit,
  remaining,
}
use mcp_velociraptor.Flow.Sink.{append_call}

-- What `_bounded` makes of the end of `wait_for`.
abbrev pub settle : {A : Type 0} → Bool → Arrival A → Flow A
settle deadline_bound (arrived a) s = ok a s
settle deadline_bound timed_out s =
    err (if deadline_bound then stop partial deadline_exceeded else stop failed request_timeout) s
settle deadline_bound interrupted s = err cancelled s
settle deadline_bound broken s = err (stop failed call_failed) s

-- The n-th awaited call, under its timeout.
abbrev pub ask : {A : Type 0} → (ℕ → ℕ → Arrival A) → ℕ → Bool → Flow A
ask starter timeout deadline_bound s =
    settle deadline_bound (starter s.asked timeout) (record s { asked = s.asked + 1 })

-- `await self._bounded(starter)`
unfoldable pub bounded : {A : Type 0} → World → Spec → (ℕ → ℕ → Arrival A) → Flow A
bounded w spec starter = do
  before ← remaining w
  if before == 0
      then raise (stop partial deadline_exceeded)
      else ask starter (min before spec.request_timeout_seconds)
          (leb before spec.request_timeout_seconds)

abbrev pub same_tool : Tool → Tool → Bool
same_tool get_flow_status get_flow_status = true
same_tool get_flow_results get_flow_results = true
same_tool list_flow_files list_flow_files = true
same_tool _ _ = false

abbrev pub validators_of : Tool → List (Tool × (Json × Json)) → Option (Json × Json)
validators_of t [] = none
validators_of t ((u, schemas) ∷ rest) = if same_tool u t then some schemas else validators_of t rest

-- `self.validators[name]`, a KeyError before the contract is loaded
unfoldable pub validator : Tool → Flow (Json × Json)
validator t = do schemas ← gets (λ s. s.validators); some_or crash (validators_of t schemas)

abbrev pub count_call : Tool → Run → Run
count_call get_flow_status s = record s { status_calls = s.status_calls + 1 }
count_call get_flow_results s = record s { results_calls = s.results_calls + 1 }
count_call list_flow_files s = record s { files_calls = s.files_calls + 1 }

-- The reason of an error result: its code, unless that is missing, empty or too long.
unfoldable pub error_reason : Option Json → Reason
error_reason (some (str code)) =
    if not (str_eq code "") && leb (len code) summary_code_limit then reported code else tool_error
error_reason _ = tool_error

unfoldable pub error_code : Option Json → Option Json
error_code none = none
error_code (some payload) = get "code" payload

abbrev says : String → String → Json → Bool
says k v payload = elim (get k payload) [ none ↦ false | some x ↦ is_text v x ]

unfoldable pub checked_payload : World → Tool → Json → Flow Json
checked_payload w name payload = do
  require (is_dict payload) (stop failed protocol_error)
  require (says "operation" (tool_name name) payload) (stop failed protocol_error)
  require (says "status" "success" payload) (stop failed protocol_error)
  schemas ← validator name
  require (w.is_valid schemas.1 payload) (stop failed schema_mismatch)
  pure payload

-- `_checked`
unfoldable pub checked : World → Answer → Tool → Flow Json
checked w result name =
    if result.is_error then fail (error_reason (error_code result.structured_content)) else (do
      payload ← some_or (stop failed protocol_error) result.structured_content
      checked_payload w name payload)

-- `_call`
unfoldable pub call : World → Spec → Tool → Json → Flow Json
call w spec name args = do
  used ← gets (λ s. s.calls_bytes)
  require (leb (used + log_slot_reserve) spec.max_log_bytes) (stop partial log_budget)
  schemas ← validator name
  require (w.is_valid schemas.0 args) (stop failed invalid_arguments)
  modify (count_call name)
  result ← bounded w spec (λ n timeout. w.call_tool n timeout name args)
  append_call w name args result
  checked w result name
