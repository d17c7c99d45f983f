-- ===== src/Flow/Paging.antt =====
-- The loop over pages of velo_flow/coordinator.py, about its budget of pages and its last page.
use mcp_velociraptor.Flow.Reads.{warnings_in-Keeps, page_of-Keeps}
use mcp_velociraptor.Json.{contains}
use mcp_velociraptor.Proc.Keeps.{Keeps-weaken}
use mcp_velociraptor.Proc.Triple.{Triple-raise, Triple-if, Triple-bind, Triple-modify, Triple}
use mcp_velociraptor.Flow.Wait.{add_warnings}
use mcp_velociraptor.Flow.Collecting.{
  unread-Saved, save_page-Exact, Saved, Exact, Exact-Saved, IsFetched,
}
use mcp_velociraptor.Flow.Saved.{IsExact}
use mcp_velociraptor.Prelude.{
  refl, zero, ◌==◌, length, some, suc, ◌≢◌, none, arith, ◌≡◌, String, Option, List, ℕ,
}
use mcp_velociraptor.Flow.Pages.{expected_echo, page_args, unread, fetched, pages, advance}
use mcp_velociraptor.Flow.Frame.{call-Keeps, collected, Collected}
use mcp_velociraptor.Flow.Model.{
  crash, protocol_error, failed, stop, get_flow_results, Flow, Run, World, Spec,
}

-- When the last page was reached: all is saved, and no cursor is left to read.
pub record IsDone (spec : Spec) (c : Collected) : Type 0 where
  pub exact : IsExact spec c
  pub none_unread : c.next_unread_cursor ≡ none

module _ (w : World) (spec : Spec) where
  abbrev Done : Run → Type 0
  Done s = IsDone spec (collected s)

  fetched-IsFetched : (n : ℕ) (s : Run) → Exact w spec s → IsFetched w spec n (fetched n s)
  fetched-IsFetched n s h = ground arith

  warned-IsFetched :
      (n k : ℕ) (s : Run) → IsFetched w spec n s → IsFetched w spec n (add_warnings k s)
  warned-IsFetched n k s h = ground arith

  done : (s : Run) → Exact w spec s → Done (unread none s)
  done s h = ground arith

  advance-Done :
      (left : ℕ) (visited : List String) (next : Option String) (rest : String → Flow (Unit {0}))
      → (left ≢ 0
          → (nxt : String) → Triple (Exact w spec) (rest nxt) (λ _ s. Done s) (Saved w spec))
      → Triple (Exact w spec) (advance left visited next rest) (λ _ s. Done s) (Saved w spec)
  unfolding advance
  advance-Done left visited none rest k = Triple-modify _ done
  advance-Done left visited (some nxt) rest k =
      Triple-if (contains visited nxt)
        (λ _. Triple-raise _ (Exact-Saved w spec (stop failed protocol_error)))
        λ _.
          Triple-if (left == 0)
            (λ _.
              Triple-bind
                (Triple-modify {Q = λ _ s. Saved w spec crash s} _
                  λ s h. unread-Saved w spec (some nxt) s (Exact-Saved w spec crash s h))
                λ _. Triple-raise _ λ s h. h)
            λ more. k (ground arith) nxt

  -- With a budget of at least one page, the loop returns only after the last page.
  pub pages-Done :
      (left : ℕ) (cursor : Option String) (visited : List String)
      → left ≢ 0
      → Triple (Exact w spec) (pages left w spec cursor visited) (λ _ s. Done s) (Saved w spec)
  unfolding pages
  pages-Done zero cursor visited h = absurd (h refl)
  pages-Done (suc left) cursor visited h =
      Triple-bind
        (Keeps-weaken (call-Keeps (IsExact spec) w spec get_flow_results (page_args spec cursor))
          (Exact-Saved w spec))
        λ payload.
          Triple-bind (Keeps-weaken (page_of-Keeps spec cursor payload) (Exact-Saved w spec))
            λ page.
              Triple-bind
                (Triple-modify {Q = λ _ s. IsFetched w spec (length page.0) s} _
                  (fetched-IsFetched (length page.0)))
                λ _. Triple-bind (Keeps-weaken (warnings_in-Keeps payload) λ e s h. h.kept) λ n.
                  Triple-bind
                    (Triple-modify {Q = λ _ s. IsFetched w spec (length page.0) s} _
                      (warned-IsFetched (length page.0) n))
                    λ _. Triple-bind (save_page-Exact w spec (expected_echo cursor) page.0) λ _.
                      advance-Done left _ page.1 _ λ more nxt. pages-Done left (some nxt) _ more
