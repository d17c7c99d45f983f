-- ===== src/Flow/Frame.antt =====
-- `_call` of velo_flow/coordinator.py, about the part of the run that the collected rows are in.
use mcp_velociraptor.Flow.Ticks
use mcp_velociraptor.Prelude.{ℕ, String, Bool, Option, List}
use mcp_velociraptor.Json.{Json}
use mcp_velociraptor.Proc.{modify}
use mcp_velociraptor.Proc.Triple.{Keeps}
use mcp_velociraptor.Proc.Keeps.{Keeps-modify, keeps_rules}
use mcp_velociraptor.Flow.Model.{
  Tool, get_flow_status, get_flow_results, list_flow_files, Outcome, Reason, World, Run, Spec,
  Answer, Arrival, Stop,
}
use mcp_velociraptor.Flow.Sink.{write, append_call}
use mcp_velociraptor.Flow.Calls.{bounded, validator, checked, count_call, call}

-- What a call leaves alone.
pub record Collected : Type 0 where
  pub rows : List (List ℕ)
  pub rows_bytes : ℕ
  pub contract_written : Bool
  pub validators : List (Tool × (Json × Json))
  pub warnings_count : ℕ
  pub pages_fetched : ℕ
  pub pages_saved : ℕ
  pub rows_fetched : ℕ
  pub rows_saved : ℕ
  pub next_unread_cursor : Option String
  pub files_count : Option ℕ
  pub files_complete : Option Bool
  pub sample_rows : List Json
  pub last_state : Option Json
  pub deadline : ℕ
  pub downgrade : Option (Outcome × Reason)

abbrev pub collected : Run → Collected
collected s = record {
  rows = s.rows;
  rows_bytes = s.rows_bytes;
  contract_written = s.contract_written;
  validators = s.validators;
  warnings_count = s.warnings_count;
  pages_fetched = s.pages_fetched;
  pages_saved = s.pages_saved;
  rows_fetched = s.rows_fetched;
  rows_saved = s.rows_saved;
  next_unread_cursor = s.next_unread_cursor;
  files_count = s.files_count;
  files_complete = s.files_complete;
  sample_rows = s.sample_rows;
  last_state = s.last_state;
  deadline = s.deadline;
  downgrade = s.downgrade;
}

module _ (Q : Collected → Type 0) (w : World) where
  abbrev Same : Run → Type 0
  Same s = Q (collected s)

  pub bounded-Keeps :
      {A : Type 0} (spec : Spec) (st : ℕ → ℕ → Arrival A) → Keeps Same (bounded w spec st)
  bounded-Keeps = Ticks.bounded-Keeps Same w (λ n s h. h) (λ n s h. h) (λ n s h. h)

  pub write-Keeps : Keeps Same (write w)
  write-Keeps = Ticks.write-Keeps Same w (λ n s h. h) (λ n s h. h) (λ n s h. h)

  pub append_call-Keeps :
      (t : Tool) (args : Json) (r : Answer) → Keeps Same (append_call w t args r)
  unfolding append_call
  append_call-Keeps t args r = search (keeps_rules, write-Keeps, Keeps-modify) depth 12

  pub validator-Keeps : (t : Tool) → Keeps Same (validator t)
  unfolding validator
  validator-Keeps t = search keeps_rules

  checked-Keeps : (r : Answer) (t : Tool) → Keeps Same (checked w r t)
  checked-Keeps = Ticks.checked-Keeps Same w (λ n s h. h) (λ n s h. h) (λ n s h. h)

  count_call-Keeps : (t : Tool) → Keeps {E = Stop} Same (modify (count_call t))
  count_call-Keeps get_flow_status = record { at = λ s h. h }
  count_call-Keeps get_flow_results = record { at = λ s h. h }
  count_call-Keeps list_flow_files = record { at = λ s h. h }

  pub call-Keeps : (spec : Spec) (t : Tool) (args : Json) → Keeps Same (call w spec t args)
  unfolding call
  call-Keeps spec t args =
      search
        (
          keeps_rules, bounded-Keeps, validator-Keeps, checked-Keeps, append_call-Keeps,
          count_call-Keeps,
        )
        depth 12
