-- ===== src/Flow/Wait.antt =====
-- `_wait_finished` of velo_flow/coordinator.py: the status is asked for until the flow has ended.
use mcp_velociraptor.Prelude.{
  Option, ℕ, zero, suc, ◌+◌, String, not, none, some, ◌==◌, length, if◌then◌else◌,
}
use mcp_velociraptor.Json.{Json, str, arr, obj, items, keys, member, end, get, is_text}
use mcp_velociraptor.Proc.{ok, err, pure, raise, modify, require, some_or, ◌>>=◌, ◌>>◌}
use mcp_velociraptor.Flow.Model.{
  get_flow_status, World, Run, Spec, Flow, stop, crash, partial, failed, fail, protocol_error,
  flow_error, status_budget, deadline_exceeded, remaining,
}
use mcp_velociraptor.Flow.Calls.{call}

-- `payload[k]`
unfoldable pub field : String → Json → Flow Json
field k payload = some_or crash (get k payload)

unfoldable pub warnings_count : Option Json → Flow ℕ
warnings_count none s = ok 0 s
warnings_count (some (arr xs)) s = ok (length (items xs)) s
warnings_count (some (obj m)) s = ok (length (keys m)) s
warnings_count (some _) s = err crash s

-- `len(payload.get("warnings", []))`
unfoldable pub warnings_in : Json → Flow ℕ
warnings_in payload = warnings_count (get "warnings" payload)

abbrev pub add_warnings : ℕ → Run → Run
add_warnings n s = record s { warnings_count = s.warnings_count + n }

abbrev pub flow_args : Spec → Json
flow_args spec = obj (member "flow_id" (str spec.flow_id) end)

-- `delay = min(backoff, remaining)`; `asyncio.sleep` moves the clock, which the world keeps
unfoldable pub backoff : World → Flow (Unit {0})
backoff w = do left ← remaining w; require (not (left == 0)) (stop partial deadline_exceeded)

-- The first argument is `max_status_calls - calls`.
unfoldable pub poll : ℕ → World → Spec → Flow (Unit {0})
poll zero w spec = raise (stop partial status_budget)
poll (suc left) w spec = do
  payload ← call w spec get_flow_status (flow_args spec)
  state ← field "state" payload
  modify (λ s. record s { last_state = some state })
  n ← warnings_in payload
  modify (add_warnings n)
  flow_id ← field "flow_id" payload
  require (is_text spec.flow_id flow_id) (stop failed protocol_error)
  if is_text "FINISHED" state
      then pure tt
      else if is_text "ERROR" state
      then fail flow_error
      else (do backoff w; poll left w spec)

-- `_wait_finished`
unfoldable pub wait_finished : World → Spec → Flow (Unit {0})
wait_finished w spec = poll spec.max_status_calls w spec
