-- ===== src/Flow/Pages.antt =====
-- `_collect_pages`, `_list_files` and `_extend_sample` of velo_flow/coordinator.py.
use mcp_velociraptor.Bytes.{total}
use mcp_velociraptor.Text.{codes}
use mcp_velociraptor.Prelude.{
  ℕ, zero, suc, ◌+◌, String, Bool, true, false, not, Option, none, some, List, [], ◌∷◌, ◌++◌, ltb,
  leb, ◌==◌, ◌&&◌, ◌||◌, any, length, if◌then◌else◌,
}
use mcp_velociraptor.Json.{
  Json, Members, null, int, str, arr, obj, items, end, member, find, put, contains, is_text,
  is_number, truthy,
}
use mcp_velociraptor.Proc.{ok, err, pure, raise, gets, modify, require, some_or, ◌>>=◌, ◌>>◌}
use mcp_velociraptor.Flow.Model.{
  get_flow_results, list_flow_files, World, Run, Spec, Flow, stop, crash, partial, failed, fail,
  protocol_error, result_budget, page_budget, filelist_truncated, sample_row_limit,
}
use mcp_velociraptor.Flow.Sink.{append_rows_page}
use mcp_velociraptor.Flow.Calls.{call}
use mcp_velociraptor.Flow.Wait.{field, warnings_in, add_warnings, flow_args}

-- a list in the payload; the code takes `len` of it and iterates over it
unfoldable pub rows_of : Json → Flow (List Json)
rows_of (arr xs) s = ok (items xs) s
rows_of _ s = err crash s

abbrev or_null : Option String → Json
or_null none = null
or_null (some t) = str t

abbrev pub page_args : Spec → Option String → Json
page_args spec cursor = obj (
    member "flow_id" (str spec.flow_id) (
      member "source" (or_null spec.source)
        (member "cursor" (or_null cursor) (member "page_size" (int spec.page_size) end))))

abbrev pub expected_echo : Option String → String
expected_echo none = "v1:0"
expected_echo (some cursor) = cursor

-- The next cursor of a page, checked against `truncated`; `some` where the page is truncated.
unfoldable pub next_of : Bool → Json → List Json → Flow (Option String)
next_of true (str nxt) (row ∷ rows) = do
  require (not (is_text "" (str nxt))) (stop failed protocol_error)
  pure (some nxt)
next_of true _ _ = fail protocol_error
next_of false null rows = pure none
next_of false _ rows = fail protocol_error

-- One line for each row, or the error that `json.dumps` raises
unfoldable pub lines_of : World → List Json → Option (List (List ℕ))
lines_of w [] = some []
lines_of w (row ∷ rows) = elim (w.dumps row) [
  | none ↦ none
  | some raw ↦ elim (lines_of w rows) [
    | none ↦ none
    | some lines ↦ some ((raw ++ b'\n' ∷ []) ∷ lines)
  ]
]

-- `{name: row[name] for name in sample_fields if name in row}`
abbrev project_into : Members → List String → Members → Members
project_into acc [] row = acc
project_into acc (k ∷ ks) row =
    project_into (elim (find k row) [ none ↦ acc | some v ↦ put k v acc ]) ks row

abbrev is_prefix : List ℕ → List ℕ → Bool
is_prefix [] cs = true
is_prefix (d ∷ ds) [] = false
is_prefix (d ∷ ds) (c ∷ cs) = d == c && is_prefix ds cs

-- `part in text`
abbrev is_infix : List ℕ → List ℕ → Bool
is_infix ds [] = is_prefix ds []
is_infix ds (c ∷ cs) = is_prefix ds (c ∷ cs) || is_infix ds cs

-- `name in row`, where the row is no dict; none where it raises
abbrev holds : Json → String → Option Bool
holds (arr xs) name = some (any (is_text name) (items xs))
holds (str s) name = some (is_infix (codes name) (codes s))
holds _ name = none

-- The same of a row that is no dict: a name that is in it makes `row[name]` raise.
abbrev project_other : List String → Json → Option Json
project_other [] row = some (obj end)
project_other (k ∷ ks) row = elim (holds row k) [
  | none ↦ none
  | some b ↦ if b then none else project_other ks row
]

unfoldable pub project : List String → Json → Option Json
project [] row = some row
project (k ∷ ks) (obj row) = some (obj (project_into end (k ∷ ks) row))
project (k ∷ ks) row = project_other (k ∷ ks) row

abbrev pub fits_sample : World → Json → Bool
fits_sample w projected = elim (w.dumps projected) [
  | none ↦ false
  | some line ↦ leb (length line) sample_row_limit
]

abbrev pub add_sample : Json → Run → Run
add_sample row s = record s { sample_rows = s.sample_rows ++ row ∷ [] }

-- `_extend_sample`
unfoldable pub extend_sample : World → Spec → List Json → Flow (Unit {0})
extend_sample w spec [] = pure tt
extend_sample w spec (row ∷ rows) = do
  sample ← gets (λ s. s.sample_rows)
  if leb spec.sample_rows (length sample) then pure tt else (do
    projected ← some_or crash (project spec.sample_fields row)
    if fits_sample w projected then modify (add_sample projected) else pure tt
    extend_sample w spec rows)

abbrev pub fetched : ℕ → Run → Run
fetched n s = record s { pages_fetched = s.pages_fetched + 1; rows_fetched = s.rows_fetched + n }

abbrev pub saved : ℕ → Run → Run
saved n s = record s { pages_saved = s.pages_saved + 1; rows_saved = s.rows_saved + n }

abbrev pub unread : Option String → Run → Run
unread c s = record s { next_unread_cursor = c }

-- The checks on a page's `pagination` and `data`: its rows, and its next cursor if there is one.
unfoldable pub page_of : Spec → Option String → Json → Flow (List Json × Option String)
page_of spec cursor payload = do
  pagination ← field "pagination" payload
  data' ← field "data" payload
  echo ← field "cursor" pagination
  require (is_text (expected_echo cursor) echo) (stop failed protocol_error)
  returned ← field "returned" pagination
  rows ← rows_of data'
  require (is_number (length rows) returned) (stop failed protocol_error)
  page_size ← field "page_size" pagination
  require (is_number spec.page_size page_size) (stop failed protocol_error)
  truncated ← field "truncated" pagination
  nxt ← field "next_cursor" pagination
  next ← next_of (truthy truncated) nxt rows
  pure (rows, next)

-- The lines of a page go to the file whole, if the result budget has room for them.
unfoldable pub save_page : World → Spec → String → List Json → Flow (Unit {0})
save_page w spec echo rows = do
  lines ← some_or (stop failed protocol_error) (lines_of w rows)
  used ← gets (λ s. s.rows_bytes)
  if ltb spec.max_result_bytes (used + total lines)
      then (do modify (unread (some echo)); raise (stop partial result_budget))
      else (do append_rows_page w lines; modify (saved (length rows)); extend_sample w spec rows)

-- After a page is saved: the end, an error, or the rest of the loop from the next cursor.
unfoldable pub advance :
    ℕ → List String → Option String → (String → Flow (Unit {0})) → Flow (Unit {0})
advance left visited none rest = modify (unread none)
advance left visited (some nxt) rest =
    if contains visited nxt
    then fail protocol_error
    else if left == 0
    then (do modify (unread (some nxt)); raise (stop partial page_budget))
    else rest nxt

-- The loop over pages; the first argument is `max_pages - page_index`.
unfoldable pub pages : ℕ → World → Spec → Option String → List String → Flow (Unit {0})
pages zero w spec cursor visited = pure tt
pages (suc left) w spec cursor visited = do
  payload ← call w spec get_flow_results (page_args spec cursor)
  (rows, next) ← page_of spec cursor payload
  modify (fetched (length rows))
  n ← warnings_in payload
  modify (add_warnings n)
  save_page w spec (expected_echo cursor) rows
  advance left (expected_echo cursor ∷ visited) next
      (λ nxt. pages left w spec (some nxt) (expected_echo cursor ∷ visited))

-- `_collect_pages`
unfoldable pub collect_pages : World → Spec → Flow (Unit {0})
collect_pages w spec = pages spec.max_pages w spec none []

-- `_list_files`
unfoldable pub list_files : World → Spec → Flow (Unit {0})
list_files w spec = do
  payload ← call w spec list_flow_files (flow_args spec)
  n ← warnings_in payload
  modify (add_warnings n)
  data' ← field "data" payload
  files ← rows_of data'
  modify (λ s. record s { files_count = some (length files) })
  truncated ← field "truncated" payload
  modify (λ s. record s { files_complete = some (not (truthy truncated)) })
  if truthy truncated
      then modify (λ s. record s { downgrade = some (partial, filelist_truncated) })
      else pure tt
