-- ===== src/Flow/Coordinator.antt =====
-- `run` of velo_flow/coordinator.py.
use mcp_velociraptor.Prelude.{ℕ, ◌+◌, Bool, true, false, Option, none, some}
use mcp_velociraptor.Proc.{Exit, ok, err, modify, ◌>>=◌, ◌>>◌}
use mcp_velociraptor.Flow.Model.{
  World, Run, Spec, Flow, Stop, stop, crash, cancelled, Outcome, complete, Reason, finished,
  monotonic,
}
use mcp_velociraptor.Flow.Contract.{load_contract}
use mcp_velociraptor.Flow.Wait.{wait_finished}
use mcp_velociraptor.Flow.Pages.{collect_pages, list_files}

-- `RunResult`
pub record RunResult : Type 0 where
  pub outcome : Outcome
  pub reason : Reason
  pub complete : Bool
  pub error_code : Option Reason

abbrev pub is_complete : Outcome → Bool
is_complete complete = true
is_complete _ = false

abbrev pub set_deadline : ℕ → Run → Run
set_deadline n s = record s { deadline = n }

-- `self._deadline`: the given one, or the clock and the request's time
unfoldable pub begin : World → Spec → Option ℕ → Flow (Unit {0})
begin w spec (some deadline) = modify (set_deadline deadline)
begin w spec none = do now ← monotonic w; modify (set_deadline (now + spec.deadline_seconds))

unfoldable pub phases : World → Spec → Flow (Unit {0})
phases w spec = do
  load_contract w spec
  wait_finished w spec
  collect_pages w spec
  list_files w spec

-- `self._downgrade or ("complete", "finished")`
abbrev pub judge : Option (Outcome × Reason) → RunResult
judge none = record { outcome = complete; reason = finished; complete = true; error_code = none }
judge (some (o, r)) = record {
  outcome = o;
  reason = r;
  complete = is_complete o;
  error_code = none;
}

-- The end of the `try`: a `RunStop` becomes a result, and any other exception goes on.
abbrev pub conclude : Exit Run Stop (Unit {0}) → Exit Run Stop RunResult
conclude (ok a s) = ok (judge s.downgrade) s
conclude (err (stop o r) s) =
    ok (record { outcome = o; reason = r; complete = false; error_code = some r }) s
conclude (err crash s) = err crash s
conclude (err cancelled s) = err cancelled s

unfoldable pub run : World → Spec → Option ℕ → Flow RunResult
run w spec deadline = do begin w spec deadline; λ s. conclude (phases w spec s)
