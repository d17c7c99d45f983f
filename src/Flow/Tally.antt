-- ===== src/Flow/Tally.antt =====
-- `run` of velo_flow/coordinator.py and its phases, about the counts of calls and the log.
use mcp_velociraptor.Flow.Reads.{rows_of-Keeps, warnings_in-Keeps, page_of-Keeps, field-Keeps}
use mcp_velociraptor.Flow.Saving.{save_page-Keeps}
use mcp_velociraptor.Flow.Contracting.{load_contract-Keeps}
use mcp_velociraptor.Proc.Keeps.{
  Keeps-pure, Keeps-if, Keeps-require, Keeps-modify, Keeps-weaken, Keeps-bind,
}
use mcp_velociraptor.Json.{is_text, contains, Json}
use mcp_velociraptor.Flow.Contract.{load_contract}
use mcp_velociraptor.Flow.Wait.{flow_args, wait_finished, backoff, poll}
use mcp_velociraptor.Flow.Coordinator.{conclude, run, phases, begin}
use mcp_velociraptor.Flow.Pages.{
  expected_echo, page_args, save_page, collect_pages, pages, list_files, advance,
}
use mcp_velociraptor.Prelude.{zero, ◌==◌, some, [], none, suc, arith, String, List, ℕ, Option}
use mcp_velociraptor.Proc.Triple.{
  Triple-pure, Triple-if, Triple_final, Triple-mono, Triple-modify, Triple-raise, Triple-bind,
  Triple, Ends, Keeps,
}
use mcp_velociraptor.Proc.{err, ok, final, Proc, Exit}
use mcp_velociraptor.Flow.Room.{call-Room, HasRoom-IsLogged}
use mcp_velociraptor.Flow.Log.{tally, HasRoom, IsLogged}
use mcp_velociraptor.Flow.Model.{
  cancelled, crash, stop, list_flow_files, get_flow_status, get_flow_results, Flow, monotonic,
  start, Stop, Run, World, Spec,
}
use mcp_velociraptor.Flow.Ticks

module _ (spec : Spec) (w : World) where
  abbrev Room : ℕ → ℕ → ℕ → ℕ → Run → Type 0
  Room a b c d s = HasRoom spec a b c d (tally s)

  abbrev End : Stop → Run → Type 0
  End e s = IsLogged spec w (tally s)

  end : (a b c : ℕ) (s : Run) → Room a b c 0 s → IsLogged spec w (tally s)
  end a b c s h = HasRoom-IsLogged spec w a b c 0 s h

  -- a part that keeps the room, before a later exception
  part :
      (a b c : ℕ) {A : Type 0} {m : Proc Run Stop A}
      → Keeps (Room a b c 0) m
      → Triple (Room a b c 0) m (λ _ s. Room a b c 0 s) End
  part a b c k = Keeps-weaken k λ e. end a b c

  backoff-Room : (a b c : ℕ) → Keeps (Room a b c 0) (backoff w)
  backoff-Room a b c = Ticks.backoff-Keeps (Room a b c 0) w (λ n s h. h) (λ n s h. h) (λ n s h. h)

  poll-Room :
      (left : ℕ)
      → Triple
          (Room left spec.max_pages 1 0)
          (poll left w spec)
          (λ _ s. Room 0 spec.max_pages 1 0 s)
          End
  unfolding poll
  poll-Room zero = Triple-raise _ (end 0 spec.max_pages 1)
  poll-Room (suc left) =
      let b = spec.max_pages in
      Triple-bind
        (Triple-mono (call-Room spec w left b 1 get_flow_status (flow_args spec)) (λ s h. h)
          (λ _ s h. h) (λ _ s h. h))
        λ payload. Triple-bind (part left b 1 (field-Keeps "state" payload)) λ state.
          Triple-bind (part left b 1 (Keeps-modify _ λ s h. h)) λ _.
            Triple-bind (part left b 1 (warnings_in-Keeps payload)) λ n.
              Triple-bind (part left b 1 (Keeps-modify _ λ s h. h)) λ _.
                Triple-bind (part left b 1 (field-Keeps "flow_id" payload)) λ flow_id.
                  Triple-bind (part left b 1 (Keeps-require _ _)) λ _.
                    Triple-if (is_text "FINISHED" state) (λ _. Triple-pure _ λ s h. omega arith)
                      λ _.
                        Triple-if (is_text "ERROR" state) (λ _. Triple-raise _ (end left b 1))
                          λ _.
                            Triple-bind (part left b 1 (backoff-Room left b 1)) λ _. poll-Room left

  advance-Room :
      (left : ℕ) (visited : List String) (next : Option String) (rest : String → Flow (Unit {0}))
      → ((nxt : String) → Triple (Room 0 left 1 0) (rest nxt) (λ _ s. Room 0 0 1 0 s) End)
      → Triple (Room 0 left 1 0) (advance left visited next rest) (λ _ s. Room 0 0 1 0 s) End
  unfolding advance
  advance-Room left visited none rest k = Triple-modify _ λ s h. omega arith
  advance-Room left visited (some nxt) rest k =
      Triple-if (contains visited nxt) (λ _. Triple-raise _ (end 0 left 1))
        λ _.
          Triple-if (left == 0)
            (λ _.
              Triple-bind (part 0 left 1 (Keeps-modify _ λ s h. h))
                λ _. Triple-raise _ (end 0 left 1))
            λ _. k nxt

  save_page-Room :
      (left : ℕ) (echo : String) (rows : List Json)
      → Keeps (Room 0 left 1 0) (save_page w spec echo rows)
  save_page-Room left =
      save_page-Keeps (Room 0 left 1 0) w spec
        (Ticks.write-Keeps (Room 0 left 1 0) w (λ n s h. h) (λ n s h. h) (λ n s h. h))
        (λ line s h. h) (λ row s h. h) (λ m s h. h) (λ c s h. h)

  pages-Room :
      (left : ℕ) (cursor : Option String) (visited : List String)
      → Triple (Room 0 left 1 0) (pages left w spec cursor visited) (λ _ s. Room 0 0 1 0 s) End
  unfolding pages
  pages-Room zero cursor visited = record { at = λ s h. h }
  pages-Room (suc left) cursor visited =
      Triple-bind
        (Triple-mono (call-Room spec w 0 left 1 get_flow_results (page_args spec cursor)) (λ s h. h)
          (λ _ s h. h) (λ _ s h. h))
        λ payload. Triple-bind (part 0 left 1 (page_of-Keeps spec cursor payload)) λ page.
          Triple-bind (part 0 left 1 (Keeps-modify _ λ s h. h)) λ _.
            Triple-bind (part 0 left 1 (warnings_in-Keeps payload)) λ n.
              Triple-bind (part 0 left 1 (Keeps-modify _ λ s h. h)) λ _.
                Triple-bind (part 0 left 1 (save_page-Room left (expected_echo cursor) page.0))
                  λ _. advance-Room left _ page.1 _ λ nxt. pages-Room left (some nxt) _

  list_files-Room : Triple (Room 0 0 1 0) (list_files w spec) (λ _ s. Room 0 0 0 0 s) End
  unfolding list_files
  list_files-Room = Triple-bind (call-Room spec w 0 0 0 list_flow_files (flow_args spec)) λ payload.
      part 0 0 0 (
        Keeps-bind _ _ (warnings_in-Keeps payload) λ n.
          Keeps-bind _ _ (Keeps-modify _ λ s h. h) λ _.
            Keeps-bind _ _ (field-Keeps "data" payload) λ listed.
              Keeps-bind _ _ (rows_of-Keeps listed) λ files.
                Keeps-bind _ _ (Keeps-modify _ λ s h. h) λ _.
                  Keeps-bind _ _ (field-Keeps "truncated" payload) λ truncated.
                    Keeps-bind _ _ (Keeps-modify _ λ s h. h)
                      λ _. Keeps-if _ _ _ (Keeps-modify _ λ s h. h) (Keeps-pure _))

  abbrev Full : Run → Type 0
  Full s = Room spec.max_status_calls spec.max_pages 1 0 s

  load_contract-Full : Keeps Full (load_contract w spec)
  load_contract-Full =
      load_contract-Keeps Full w spec
        (Ticks.bounded-Keeps Full w (λ n s h. h) (λ n s h. h) (λ n s h. h) spec)
        (Ticks.write-Keeps Full w (λ n s h. h) (λ n s h. h) (λ n s h. h)) (λ t schemas s h. h)
        (λ s h. h)

  phases-Room : Triple Full (phases w spec) (λ _ s. Room 0 0 0 0 s) End
  unfolding phases wait_finished collect_pages
  phases-Room = Triple-bind (part spec.max_status_calls spec.max_pages 1 load_contract-Full) λ _.
      Triple-bind (poll-Room spec.max_status_calls)
        λ _. Triple-bind (pages-Room spec.max_pages none []) λ _. list_files-Room

  begin-Full : (deadline : Option ℕ) → Keeps Full (begin w spec deadline)
  unfolding begin monotonic
  begin-Full none = Keeps-bind _ _ (record { at = λ s h. h }) λ now. Keeps-modify _ λ s h. h
  begin-Full (some d) = Keeps-modify _ λ s h. h

  conclude-Room :
      (r : Exit Run Stop (Unit {0}))
      → Ends (λ _ s. Room 0 0 0 0 s) End r
      → Ends (λ _ s. IsLogged spec w (tally s)) End (conclude r)
  conclude-Room (ok a s) h = end 0 0 0 s h
  conclude-Room (err (stop o r) s) h = h
  conclude-Room (err crash s) h = h
  conclude-Room (err cancelled s) h = h

  run-Room :
      (deadline : Option ℕ)
      → Triple Full (run w spec deadline) (λ _ s. IsLogged spec w (tally s)) End
  unfolding run
  run-Room deadline =
      Triple-bind (part spec.max_status_calls spec.max_pages 1 (begin-Full deadline))
        λ _. record { at = λ s h. conclude-Room (phases w spec s) (phases-Room.at s h) }

  start-Full : Full start
  start-Full = ground arith

  -- However a run from the start ends, it has called the status at most `max_status_calls` times,
  -- the results at most `max_pages` times and the files at most once, and the log of the calls has
  -- the counted bytes. These are within `max_log_bytes`, or the log is marked as incomplete and its
  -- last line is the marker of an oversized record, before which the log left a slot of
  -- `log_slot_reserve` bytes free.
  pub run-IsLogged :
      (deadline : Option ℕ) → IsLogged spec w (tally (final (run w spec deadline start)))
  run-IsLogged deadline =
      Triple_final (run-Room deadline) (λ _ s h. h) (λ _ s h. h) start start-Full
