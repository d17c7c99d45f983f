-- ===== src/Flow/Sink.antt =====
-- `OutputSink` of velo_flow/coordinator.py: the append-only files of one run directory.
use mcp_velociraptor.Prelude.{
  ℕ, ◌+◌, Bool, true, false, List, [], ◌∷◌, ◌++◌, ltb, length, if◌then◌else◌,
}
use mcp_velociraptor.Json.{Json, obj, member, end, str, bool}
use mcp_velociraptor.Proc.{ok, pure, modify, some_or, require, ◌>>=◌, ◌>>◌}
use mcp_velociraptor.Flow.Model.{
  Tool, tool_name, World, Listed, Run, Answer, Flow, stop, crash, failed, io_error,
  raw_record_too_large, log_record_limit, fail,
}

-- Whether the next write to a file succeeds.
unfoldable pub attempt : World → Flow Bool
attempt w s = ok (w.writable s.writes) (record s { writes = s.writes + 1 })

-- One write to a file, or a flush of it: an `OSError` becomes `RunStop("failed", "io_error")`.
unfoldable pub write : World → Flow (Unit {0})
write w = do done ← attempt w; require done (stop failed io_error)

-- The file is made, and then written; the text may have no bytes in UTF-8.
unfoldable pub write_contract : World → List Listed → Flow (Unit {0})
write_contract w found = do
  write w
  raw ← some_or crash (w.dump_contract found)
  write w
  modify (λ s. record s { contract_written = true })

abbrev pub add_call : List ℕ → Run → Run
add_call raw s = record s { calls = s.calls ++ raw ∷ []; calls_bytes = s.calls_bytes + length raw }

-- the record in place of one that is too large
abbrev pub marker : Tool → Json → Json
marker name args = obj (
    member "name" (str (tool_name name)) (
      member "args" args (
        member "response_omitted" (bool true) (
          member "raw_completeness" (str "unknown")
            (member "reason" (str "raw_record_too_large") end)))))

unfoldable pub append_call : World → Tool → Json → Answer → Flow (Unit {0})
append_call w name args response = do
  raw ← some_or crash (w.dump_call name args response)
  if ltb log_record_limit (length raw)
      then (do
        line ← some_or crash (w.dumps (marker name args))
        write w
        modify (add_call (line ++ b'\n' ∷ []))
        modify (λ s. record s { calls_complete = false })
        fail raw_record_too_large)
      else (do write w; modify (add_call raw))

abbrev pub add_row : List ℕ → Run → Run
add_row line s = record s { rows = s.rows ++ line ∷ []; rows_bytes = s.rows_bytes + length line }

unfoldable pub append_rows : World → List (List ℕ) → Flow (Unit {0})
append_rows w [] = pure tt
append_rows w (line ∷ lines) = do write w; modify (add_row line); append_rows w lines

-- The lines, and then the flush.
unfoldable pub append_rows_page : World → List (List ℕ) → Flow (Unit {0})
append_rows_page w lines = do append_rows w lines; write w
