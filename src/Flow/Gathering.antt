-- ===== src/Flow/Gathering.antt =====
-- `run` of velo_flow/coordinator.py, about the rows that it writes: the parts before the pages and the
-- list of files after them write none.
use mcp_velociraptor.Flow.Writing.{At, AtOf, Nothing, collect_pages-Collects}
use mcp_velociraptor.Flow.Written.{AreWritten}
use mcp_velociraptor.Proc.Keeps.{
  Keeps-pure, Keeps-raise, Keeps-if, Keeps-require, Keeps-modify, Keeps-weaken, Keeps-bind,
}
use mcp_velociraptor.Proc.Triple.{Triple, Keeps, Ends, Triple_ok, Triple-bind}
use mcp_velociraptor.Proc.{ok, err, Exit, Proc}
use mcp_velociraptor.Flow.Model.{
  World, Spec, Run, Stop, stop, crash, cancelled, start, monotonic, get_flow_status,
  list_flow_files,
}
use mcp_velociraptor.Flow.Pages.{list_files}
use mcp_velociraptor.Flow.Wait.{flow_args, poll, wait_finished}
use mcp_velociraptor.Flow.Contracting.{load_contract-Keeps}
use mcp_velociraptor.Flow.Coordinator.{run, begin, phases, conclude, RunResult}
use mcp_velociraptor.Flow.Frame.{Collected, collected, call-Keeps, write-Keeps, bounded-Keeps}
use mcp_velociraptor.Flow.Reads.{warnings_in-Keeps, field-Keeps, rows_of-Keeps}
use mcp_velociraptor.Flow.Ticks
use mcp_velociraptor.Prelude.{ℕ, zero, suc, true, Option, none, some, [], ◌≡◌, ◌≢◌, refl}

module _ (w : World) (spec : Spec) where
  abbrev Chain : Collected → Type 0
  Chain c = AreWritten w spec none c.rows

  any :
      {P : Run → Type 0} {A : Type 0} {m : Proc Run Stop A}
      → Keeps P m
      → Triple P m (λ _ s. P s) (Nothing w spec)
  any k = Keeps-weaken k (λ e s h. tt)

  poll-At : (left : ℕ) → Keeps (At w spec []) (poll left w spec)
  unfolding poll
  poll-At zero = Keeps-raise _
  poll-At (suc left) =
      Keeps-bind _ _ (call-Keeps (AtOf w spec []) w spec get_flow_status (flow_args spec))
        λ payload. Keeps-bind _ _ (field-Keeps "state" payload) λ state.
          Keeps-bind _ _ (Keeps-modify _ λ s h. h) λ _.
            Keeps-bind _ _ (warnings_in-Keeps payload) λ n.
              Keeps-bind _ _ (Keeps-modify _ λ s h. h) λ _.
                Keeps-bind _ _ (field-Keeps "flow_id" payload) λ flow_id.
                  Keeps-bind _ _ (Keeps-require _ _) λ _. Keeps-if _ _ _ (Keeps-pure _) (
                    Keeps-if _ _ _ (Keeps-raise _) (
                      Keeps-bind _ _
                        (Ticks.backoff-Keeps (At w spec []) w (λ n s h. h) (λ n s h. h)
                          (λ n s h. h))
                        λ _. poll-At left))

  list_files-Chain : Keeps (λ s. Chain (collected s)) (list_files w spec)
  unfolding list_files
  list_files-Chain =
      Keeps-bind _ _ (call-Keeps Chain w spec list_flow_files (flow_args spec)) λ payload.
        Keeps-bind _ _ (warnings_in-Keeps payload) λ n.
          Keeps-bind _ _ (Keeps-modify _ λ s h. h) λ _.
            Keeps-bind _ _ (field-Keeps "data" payload) λ listed.
              Keeps-bind _ _ (rows_of-Keeps listed) λ files.
                Keeps-bind _ _ (Keeps-modify _ λ s h. h) λ _.
                  Keeps-bind _ _ (field-Keeps "truncated" payload) λ truncated.
                    Keeps-bind _ _ (Keeps-modify _ λ s h. h)
                      λ _. Keeps-if _ _ _ (Keeps-modify _ λ s h. h) (Keeps-pure _)

  begin-At : (deadline : Option ℕ) → Keeps (At w spec []) (begin w spec deadline)
  unfolding begin monotonic
  begin-At none = Keeps-bind _ _ (record { at = λ s h. h }) λ now. Keeps-modify _ λ s h. h
  begin-At (some d) = Keeps-modify _ λ s h. h

  phases-Chain :
      spec.max_pages ≢ 0
      → Triple (At w spec []) (phases w spec) (λ _ s. Chain (collected s)) (Nothing w spec)
  unfolding phases wait_finished
  phases-Chain some_page =
      Triple-bind
        (any (
          load_contract-Keeps (At w spec []) w spec (bounded-Keeps (AtOf w spec []) w spec)
            (write-Keeps (AtOf w spec []) w) (λ t schemas s h. h) (λ s h. h)))
        λ _.
          Triple-bind (any (poll-At spec.max_status_calls))
            λ _. Triple-bind (collect_pages-Collects w spec some_page) λ _. any list_files-Chain

  conclude-Chain :
      (r : Exit Run Stop (Unit {0}))
      → Ends (λ _ s. Chain (collected s)) (Nothing w spec) r
      → Ends
          (λ result s. result.complete ≡ true → Chain (collected s))
          (Nothing w spec)
          (conclude r)
  conclude-Chain (ok a s) h = λ _. h
  conclude-Chain (err (stop o r) s) h = λ said. cc
  conclude-Chain (err crash s) h = tt
  conclude-Chain (err cancelled s) h = tt

  -- a run that says that it is complete
  pub run-AreWritten :
      (deadline : Option ℕ) (r : RunResult) (s : Run)
      → spec.max_pages ≢ 0
      → run w spec deadline start ≡ ok r s
      → r.complete ≡ true
      → AreWritten w spec none s.rows
  unfolding run
  run-AreWritten deadline r s some_page e said =
      Triple_ok {P = At w spec []} {Q = λ result t. result.complete ≡ true → Chain (collected t)}
        {X = (Nothing w spec)}
        (Triple-bind (any (begin-At deadline)) λ _. record {
          at = λ s h. conclude-Chain (phases w spec s) ((phases-Chain some_page).at s h);
        })
        refl e said
