-- ===== src/Flow/Waiting.antt =====
-- `_wait_finished` of velo_flow/coordinator.py, about the state that was read last.
use mcp_velociraptor.Flow.Reads.{warnings_in-Keeps, field-Keeps}
use mcp_velociraptor.Proc.Keeps.{Keeps-weaken, Keeps-require, Keeps-bind}
use mcp_velociraptor.Flow.Frame.{call-Keeps, collected}
use mcp_velociraptor.Proc.Triple.{
  Triple-mono, Triple-pure, Triple-if, Triple-require, Triple-modify, Triple-bind, Triple-raise,
  Keeps, Triple,
}
use mcp_velociraptor.Flow.Saved.{IsSaved, IsExact-IsSaved, IsExact}
use mcp_velociraptor.Flow.Wait.{flow_args, add_warnings, poll, backoff}
use mcp_velociraptor.Json.{is_text, Json}
use mcp_velociraptor.Flow.Model.{
  crash, get_flow_status, status_budget, partial, stop, remaining, Stop, Run, Spec, World,
}
use mcp_velociraptor.Prelude.{zero, suc, true, none, arith, some, ◌≡◌, ℕ, Option}

-- The state that was read last says FINISHED.
abbrev pub IsFinished : Option Json → Type 0
IsFinished o = (state : Json) × (o ≡ some state) × (is_text "FINISHED" state ≡ true)

module _ (w : World) (spec : Spec) where
  abbrev Ready : Run → Type 0
  Ready s = IsExact spec (collected s) × (s.downgrade ≡ none) × (s.contract_written ≡ true)

  abbrev At : Json → Run → Type 0
  At state s = Ready s × (s.last_state ≡ some state)

  abbrev Weak : Stop → Run → Type 0
  Weak e s = IsSaved spec (collected s)

  Ready-Weak : (e : Stop) (s : Run) → Ready s → Weak e s
  Ready-Weak e s h = IsExact-IsSaved spec h.0

  backoff-Keeps : Keeps Ready (backoff w)
  unfolding backoff remaining
  backoff-Keeps = Keeps-bind _ _ (record { at = λ s h. h }) λ left. Keeps-require _ _

  read_state : (state : Json) (s : Run) → Ready s → At state (record s { last_state = some state })
  read_state state s h = (ground arith, ground arith)

  warned : (state : Json) (n : ℕ) (s : Run) → At state s → At state (add_warnings n s)
  warned state n s h = (ground arith, ground arith)

  abbrev Ended : Run → Type 0
  Ended s = Ready s × IsFinished s.last_state

  pub poll-Ended : (left : ℕ) → Triple Ready (poll left w spec) (λ _ s. Ended s) Weak
  unfolding poll
  poll-Ended zero = Triple-raise _ (Ready-Weak (stop partial status_budget))
  poll-Ended (suc left) =
      Triple-bind
        (Keeps-weaken
          (call-Keeps (λ c. IsExact spec c × (c.downgrade ≡ none) × (c.contract_written ≡ true)) w
            spec get_flow_status (flow_args spec))
          Ready-Weak)
        λ payload. Triple-bind (Keeps-weaken (field-Keeps "state" payload) Ready-Weak) λ state.
          Triple-bind (Triple-modify {Q = λ _ s. At state s} _ (read_state state)) λ _.
            Triple-bind (Keeps-weaken (warnings_in-Keeps payload) λ e s h. Ready-Weak e s h.0) λ n.
              Triple-bind (Triple-modify {Q = λ _ s. At state s} _ (warned state n)) λ _.
                Triple-bind
                  (Keeps-weaken (field-Keeps "flow_id" payload) λ e s h. Ready-Weak e s h.0)
                  λ flow_id. Triple-bind (Triple-require _ _ λ s h. Ready-Weak crash s h.0) λ _.
                    Triple-if (is_text "FINISHED" state)
                      (λ ended. Triple-pure _ λ s h. (h.1.0, (state, h.1.1, ended)))
                      λ _.
                        Triple-if (is_text "ERROR" state)
                          (λ _. Triple-raise _ λ s h. Ready-Weak crash s h.1.0)
                          λ _.
                            Triple-bind
                              (Triple-mono (Keeps-weaken backoff-Keeps Ready-Weak) (λ s h. h.1.0)
                                (λ _ s h. h) λ e s h. h)
                              λ _. poll-Ended left
