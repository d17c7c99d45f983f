-- ===== src/Flow/Ticks.antt =====
-- The uses of the world in velo_flow/coordinator.py: the clock, an awaited call and a write.
use mcp_velociraptor.Proc.Keeps.{Keeps-raise, Keeps-require, Keeps-if, keeps_rules, Keeps-bind}
use mcp_velociraptor.Proc.Triple.{Keeps}
use mcp_velociraptor.Flow.Calls.{settle, ask, checked_payload, validator, checked, bounded}
use mcp_velociraptor.Flow.Wait.{backoff}
use mcp_velociraptor.Flow.Sink.{write, attempt}
use mcp_velociraptor.Prelude.{◌+◌, Bool, ℕ}
use mcp_velociraptor.Flow.Model.{
  broken, interrupted, timed_out, arrived, Answer, Tool, Spec, remaining, Arrival, World, Run,
}

module _ (P : Run → Type 0) (w : World)
    (reads : (n : ℕ) (s : Run) → P s → P (record s { reads = n }))
    (asks : (n : ℕ) (s : Run) → P s → P (record s { asked = n }))
    (writes : (n : ℕ) (s : Run) → P s → P (record s { writes = n })) where
  pub remaining-Keeps : Keeps P (remaining w)
  unfolding remaining
  remaining-Keeps = record { at = λ s h. reads (s.reads + 1) s h }

  settle-Keeps : {A : Type 0} (b : Bool) (a : Arrival A) → Keeps P (settle b a)
  settle-Keeps b (arrived a) = record { at = λ s h. h }
  settle-Keeps b timed_out = record { at = λ s h. h }
  settle-Keeps b interrupted = record { at = λ s h. h }
  settle-Keeps b broken = record { at = λ s h. h }

  ask-Keeps : {A : Type 0} (st : ℕ → ℕ → Arrival A) (t : ℕ) (b : Bool) → Keeps P (ask st t b)
  ask-Keeps st t b = record {
    at = λ s h. (settle-Keeps b (st s.asked t)).at _ (asks (s.asked + 1) s h);
  }

  pub bounded-Keeps :
      {A : Type 0} (spec : Spec) (st : ℕ → ℕ → Arrival A) → Keeps P (bounded w spec st)
  unfolding bounded
  bounded-Keeps spec st =
      Keeps-bind _ _ remaining-Keeps λ before. Keeps-if _ _ _ (Keeps-raise _) (ask-Keeps st _ _)

  attempt-Keeps : Keeps P (attempt w)
  unfolding attempt
  attempt-Keeps = record { at = λ s h. writes (s.writes + 1) s h }

  pub write-Keeps : Keeps P (write w)
  unfolding write
  write-Keeps = Keeps-bind _ _ attempt-Keeps λ done. Keeps-require _ _

  pub backoff-Keeps : Keeps P (backoff w)
  unfolding backoff
  backoff-Keeps = Keeps-bind _ _ remaining-Keeps λ left. Keeps-require _ _

  validator-Keeps : (t : Tool) → Keeps P (validator t)
  unfolding validator
  validator-Keeps t = search keeps_rules

  pub checked-Keeps : (r : Answer) (t : Tool) → Keeps P (checked w r t)
  unfolding checked checked_payload
  checked-Keeps r t = search (keeps_rules, validator-Keeps) depth 12
