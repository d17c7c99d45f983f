-- ===== src/Flow/Settled.antt =====
-- The loop over pages of velo_flow/coordinator.py, about the state of the flow and the judgement.
use mcp_velociraptor.Flow.Saving.{save_page-Keeps}
use mcp_velociraptor.Flow.Reads.{warnings_in-Keeps, page_of-Keeps}
use mcp_velociraptor.Proc.Keeps.{Keeps-raise, Keeps-if, Keeps-modify, Keeps-bind}
use mcp_velociraptor.Proc.Triple.{Keeps}
use mcp_velociraptor.Flow.Pages.{expected_echo, page_args, pages, advance}
use mcp_velociraptor.Json.{Json}
use mcp_velociraptor.Flow.Model.{get_flow_results, Flow, Reason, Run, Outcome, Spec, World}
use mcp_velociraptor.Prelude.{zero, none, some, suc, String, Bool, ℕ, List, Option}
use mcp_velociraptor.Flow.Frame.{call-Keeps, write-Keeps, collected, Collected}

pub record Settled : Type 0 where
  pub last_state : Option Json
  pub downgrade : Option (Outcome × Reason)
  pub contract_written : Bool

abbrev pub settled : Collected → Settled
settled c = record {
  last_state = c.last_state;
  downgrade = c.downgrade;
  contract_written = c.contract_written;
}

module _ (K : Settled → Type 0) (w : World) (spec : Spec) where
  abbrev Q : Collected → Type 0
  Q c = K (settled c)

  abbrev Same : Run → Type 0
  Same s = Q (collected s)

  advance-Settled :
      (left : ℕ) (visited : List String) (next : Option String) (rest : String → Flow (Unit {0}))
      → ((nxt : String) → Keeps Same (rest nxt))
      → Keeps Same (advance left visited next rest)
  unfolding advance
  advance-Settled left visited none rest k = Keeps-modify _ λ s h. h
  advance-Settled left visited (some nxt) rest k =
      Keeps-if _ _ _ (Keeps-raise _)
        (Keeps-if _ _ _ (Keeps-bind _ _ (Keeps-modify _ λ s h. h) λ _. Keeps-raise _) (k nxt))

  pub pages-Settled :
      (left : ℕ) (cursor : Option String) (visited : List String)
      → Keeps Same (pages left w spec cursor visited)
  unfolding pages
  pages-Settled zero cursor visited = record { at = λ s h. h }
  pages-Settled (suc left) cursor visited =
      Keeps-bind _ _ (call-Keeps Q w spec get_flow_results (page_args spec cursor)) λ payload.
        Keeps-bind _ _ (page_of-Keeps spec cursor payload) λ page.
          Keeps-bind _ _ (record { at = λ s h. h })
            λ _. Keeps-bind _ _ (warnings_in-Keeps payload) λ n.
              Keeps-bind _ _ (record { at = λ s h. h })
                λ _.
                  Keeps-bind _ _
                    (save_page-Keeps Same w spec (write-Keeps Q w) (λ line s h. h) (λ row s h. h)
                      (λ m s h. h) (λ c s h. h) (expected_echo cursor) page.0)
                    λ _. advance-Settled left _ page.1 _ λ nxt. pages-Settled left (some nxt) _
