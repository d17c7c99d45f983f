-- ===== src/Flow/Completion.antt =====
-- `run` of velo_flow/coordinator.py and its phases in order, about the result that it returns.
use mcp_velociraptor.Flow.Gathering.{run-AreWritten}
use mcp_velociraptor.Flow.Written.{AreWritten}
use mcp_velociraptor.Flow.Paging.{pages-Done}
use mcp_velociraptor.Json.{truthy}
use mcp_velociraptor.Flow.Reads.{rows_of-Keeps, field-Keeps, warnings_in-Keeps}
use mcp_velociraptor.Flow.Contracting.{load_contract-written, load_contract-Keeps}
use mcp_velociraptor.Flow.Wait.{flow_args, wait_finished}
use mcp_velociraptor.Proc.Keeps.{Keeps-modify, Keeps-bind, Keeps-weaken}
use mcp_velociraptor.Flow.Coordinator.{RunResult, run, begin, judge, conclude, phases}
use mcp_velociraptor.Proc.{final, err, ok, Exit}
use mcp_velociraptor.Prelude.{[], ℕ, ap, ◌∙◌, not, arith, some, true, none, ◌≢◌, ◌≡◌, Option, refl}
use mcp_velociraptor.Flow.Contract.{load_contract}
use mcp_velociraptor.Flow.Waiting.{poll-Ended, IsFinished}
use mcp_velociraptor.Flow.Saved.{IsSaved, IsExact-IsSaved, IsExact}
use mcp_velociraptor.Flow.Pages.{list_files, collect_pages}
use mcp_velociraptor.Proc.Triple.{
  Triple_final, Triple_ok, Keeps, Triple-pure, Triple-if, Triple-modify, Triple-and, Triple-mono,
  Ends, Triple-bind, Triple,
}
use mcp_velociraptor.Flow.Settled.{pages-Settled, settled, Settled}
use mcp_velociraptor.Flow.Frame.{write-Keeps, bounded-Keeps, call-Keeps, collected, Collected}
use mcp_velociraptor.Flow.Model.{
  monotonic, start, cancelled, crash, stop, list_flow_files, Stop, Run, World, Spec,
}

-- What `complete=True` promises of the run that it ends.
pub record IsComplete (spec : Spec) (s : Run) : Type 0 where
  pub exact : IsExact spec (collected s)
  pub none_unread : s.next_unread_cursor ≡ none
  pub finished_state : IsFinished s.last_state
  pub files_listed : s.files_complete ≡ some true
  pub contract : s.contract_written ≡ true

module _ (w : World) (spec : Spec) where
  abbrev Weak : Stop → Run → Type 0
  Weak e s = IsSaved spec (collected s)

  abbrev FreshOf : Collected → Type 0
  FreshOf c = IsExact spec c × (c.downgrade ≡ none)

  abbrev Fresh : Run → Type 0
  Fresh s = FreshOf (collected s)

  Fresh-Weak : (e : Stop) (s : Run) → Fresh s → Weak e s
  Fresh-Weak e s h = IsExact-IsSaved spec h.0

  load_contract-Ready :
      Triple Fresh (load_contract w spec) (λ _ s. Fresh s × (s.contract_written ≡ true)) Weak
  load_contract-Ready =
      Triple-mono
        (Triple-and
          (Keeps-weaken
            (load_contract-Keeps Fresh w spec (bounded-Keeps FreshOf w spec) (write-Keeps FreshOf w)
              (λ t schemas s h. (ground arith, ground arith)) (λ s h. (ground arith, ground arith)))
            Fresh-Weak)
          (load_contract-written w spec))
        (λ s h. (h, tt)) (λ _ s h. h) (λ e s h. h)

  -- after the pages
  record IsCollected (c : Collected) : Type 0 where
    exact : IsExact spec c
    none_unread : c.next_unread_cursor ≡ none
    finished_state : IsFinished c.last_state
    undowngraded : c.downgrade ≡ none
    contract : c.contract_written ≡ true

  abbrev Judged : Settled → Type 0
  Judged t = IsFinished t.last_state × (t.downgrade ≡ none) × (t.contract_written ≡ true)

  collect_pages-IsCollected :
      spec.max_pages ≢ 0
      → Triple
          (λ s. IsExact spec (collected s) × Judged (settled (collected s)))
          (collect_pages w spec)
          (λ _ s. IsCollected (collected s))
          Weak
  unfolding collect_pages
  collect_pages-IsCollected some_page =
      Triple-mono
        (Triple-and (pages-Done w spec spec.max_pages none [] some_page)
          (pages-Settled Judged w spec spec.max_pages none []))
        (λ s h. h)
        (λ _ s h. record {
          exact = h.0.exact;
          none_unread = h.0.none_unread;
          finished_state = h.1.0;
          undowngraded = h.1.1;
          contract = h.1.2;
        })
        (λ e s h. h)

  abbrev Listed : Run → Type 0
  Listed s = IsSaved spec (collected s) × ((judge s.downgrade).complete ≡ true → IsComplete spec s)

  abbrev Kept : Run → Type 0
  Kept s = IsCollected (collected s)

  weak : (e : Stop) (s : Run) → Kept s → Weak e s
  weak e s h = IsExact-IsSaved spec h.exact

  list_files-Listed :
      Triple (λ s. IsCollected (collected s)) (list_files w spec) (λ _ s. Listed s) Weak
  unfolding list_files
  list_files-Listed =
      Triple-bind
        (Keeps-weaken (call-Keeps IsCollected w spec list_flow_files (flow_args spec)) weak)
        λ payload. Triple-bind (Keeps-weaken (warnings_in-Keeps payload) weak) λ n.
          Triple-bind (Triple-modify {Q = λ _ s. Kept s} _ λ s h. ground arith) λ _.
            Triple-bind (Keeps-weaken (field-Keeps "data" payload) weak) λ listed.
              Triple-bind (Keeps-weaken (rows_of-Keeps listed) weak) λ files.
                Triple-bind (Triple-modify {Q = λ _ s. Kept s} _ λ s h. ground arith) λ _.
                  Triple-bind (Keeps-weaken (field-Keeps "truncated" payload) weak) λ truncated.
                    Triple-bind
                      (Triple-modify
                        {Q = λ _ s. Kept s × (s.files_complete ≡ some (not (truthy truncated)))} _
                        λ s h. (ground arith, refl))
                      λ _.
                        Triple-if (truthy truncated)
                          (λ _.
                            Triple-modify _
                              λ s h. (ground (arith, IsExact-IsSaved spec h.0.exact), λ said. cc))
                          λ all_listed. Triple-pure _ λ s h. (
                            IsExact-IsSaved spec h.0.exact,
                            λ _. record {
                              exact = h.0.exact;
                              none_unread = h.0.none_unread;
                              finished_state = h.0.finished_state;
                              files_listed = h.1 ∙ ap (λ b. some (not b)) all_listed;
                              contract = h.0.contract;
                            },
                          )

  phases-Listed : spec.max_pages ≢ 0 → Triple Fresh (phases w spec) (λ _ s. Listed s) Weak
  unfolding phases wait_finished
  phases-Listed some_page = Triple-bind load_contract-Ready λ _.
      Triple-bind
        (Triple-mono (poll-Ended w spec spec.max_status_calls) (λ s h. (h.0.0, h.0.1, h.1))
          (λ _ s h. h) λ e s h. h)
        λ _.
          Triple-bind
            (Triple-mono (collect_pages-IsCollected some_page) (λ s h. (h.0.0, (h.1, h.0.1, h.0.2)))
              (λ _ s h. h) λ e s h. h)
            λ _. list_files-Listed

  conclude_lem :
      (r : Exit Run Stop (Unit {0}))
      → Ends (λ _ s. Listed s) Weak r
      → Ends
          (λ result s. IsSaved spec (collected s) × (result.complete ≡ true → IsComplete spec s))
          Weak
          (conclude r)
  conclude_lem (ok a s) h = h
  conclude_lem (err (stop o r) s) h = (h, λ said. cc)
  conclude_lem (err crash s) h = h
  conclude_lem (err cancelled s) h = h

  begin-Fresh : (deadline : Option ℕ) → Keeps Fresh (begin w spec deadline)
  unfolding begin monotonic
  begin-Fresh none =
      Keeps-bind _ _ (record { at = λ s h. h })
        λ now. Keeps-modify _ λ s h. (ground arith, ground arith)
  begin-Fresh (some d) = Keeps-modify _ λ s h. (ground arith, ground arith)

  run-Ends :
      (deadline : Option ℕ)
      → spec.max_pages ≢ 0
      → Triple Fresh
          (run w spec deadline)
          (λ r s. IsSaved spec (collected s) × (r.complete ≡ true → IsComplete spec s))
          Weak
  unfolding run
  run-Ends deadline some_page =
      Triple-bind (Keeps-weaken (begin-Fresh deadline) Fresh-Weak) λ _. record {
        at = λ s h. conclude_lem (phases w spec s) ((phases-Listed some_page).at s h);
      }

  start-Fresh : Fresh start
  start-Fresh = (ground arith, refl)

  -- With a budget of at least one page, whenever a run from the start returns a result that says
  -- `complete`, the rows file has the pages from the first one to the one without a next cursor, each
  -- asked for at the next cursor of the one before, and line by line what `json.dumps` gives for the
  -- rows of the page that the tool answered. The counts of saved and of fetched pages and rows agree,
  -- the bytes and the sample are in their budgets, no cursor is left unread, the state that was read
  -- last is FINISHED, the list of files was not truncated, and the contract was written.
  pub run-IsComplete :
      (deadline : Option ℕ) (r : RunResult) (s : Run)
      → spec.max_pages ≢ 0
      → run w spec deadline start ≡ ok r s
      → r.complete ≡ true
      → IsComplete spec s × AreWritten w spec none s.rows
  run-IsComplete deadline r s some_page e said = (
    (Triple_ok (run-Ends deadline some_page) start-Fresh e).1 said,
    run-AreWritten w spec deadline r s some_page e said,
  )

  -- With a budget of at least one page, however a run from the start ends, by a result or by an
  -- exception: the bytes of the rows in the file are counted and within the budget, no more pages and rows are saved than were fetched, and the
  -- sample is within its quota and no longer than the saved rows.
  pub run-IsSaved :
      (deadline : Option ℕ)
      → spec.max_pages ≢ 0
      → IsSaved spec (collected (final (run w spec deadline start)))
  run-IsSaved deadline some_page =
      Triple_final (run-Ends deadline some_page) (λ r s h. h.0) (λ e s h. h) start start-Fresh
