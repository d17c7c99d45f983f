-- ===== src/Flow/Tests.antt =====
-- One run of the coordinator at a concrete world: two pages of rows, then the files.
use mcp_velociraptor.Flow.Wait.{warnings_count}
use mcp_velociraptor.Flow.Pages.{
  list_files, advance, project, extend_sample, save_page, lines_of, next_of, rows_of, page_of,
  pages, collect_pages,
}
use mcp_velociraptor.Flow.Wait.{backoff, warnings_in, field, poll, wait_finished}
use mcp_velociraptor.Flow.Sink.{
  append_rows, append_rows_page, append_call, attempt, write, write_contract,
}
use mcp_velociraptor.Flow.Calls.{
  checked_payload, error_code, error_reason, checked, validator, call, bounded,
}
use mcp_velociraptor.Flow.Contract.{next_page, install, add_tools, list_pages, load_contract}
use mcp_velociraptor.Flow.Frame.{collected}
use mcp_velociraptor.Flow.Summaries.{build_summary_longest, IsLongest}
use mcp_velociraptor.Flow.Summary.{build_summary, summary_of, Summary}
use mcp_velociraptor.Flow.Coordinator.{phases, begin, run, RunResult}
use mcp_velociraptor.Flow.Saved.{IsSaved}
use mcp_velociraptor.Flow.Written.{AreWritten}
use mcp_velociraptor.Flow.Completion.{run-IsSaved, run-IsComplete, IsComplete}
use mcp_velociraptor.Flow.Tally.{run-IsLogged}
use mcp_velociraptor.Flow.Log.{tally, IsLogged}
use mcp_velociraptor.Proc.Triple.{Ends}
use mcp_velociraptor.Prelude.{
  ◌==◌, if◌then◌else◌, ◌≤◌, ◌+◌, take, some, length, ◌≡◌, arith, [], Bool, ◌*◌, ◌≢◌, ◌∷◌, ℕ, true,
  none, false, String, refl,
}
use mcp_velociraptor.Proc.{◌>>=◌, ok, final}
use mcp_velociraptor.Json.{Json, null, bool, int, str, arr, obj, nil, cons, end, member}
use mcp_velociraptor.Flow.Model.{
  remaining, monotonic, result_json_limit, summary_overflow, failed, stop, World, Spec, Run, Listed,
  arrived, start, complete, finished,
}

abbrev two_pages : Spec
two_pages = record {
  flow_id = "F.1";
  source = none;
  page_size = 1;
  sample_fields = "Name" ∷ [];
  sample_rows = 1;
  deadline_seconds = 100;
  request_timeout_seconds = 10;
  max_status_calls = 3;
  max_pages = 2;
  max_result_bytes = 100;
  max_log_bytes = 4194304;
}

abbrev listed : String → Listed
listed name = record { name = name; input_schema = null; output_schema = null }

abbrev status_payload : Json
status_payload = obj (
    member "operation" (str "get_flow_status") (
      member "status" (str "success")
        (member "state" (str "FINISHED") (member "flow_id" (str "F.1") end))))

abbrev row : String → Json
row name = obj (member "Name" (str name) (member "Size" (int 3) end))

abbrev pagination : String → Bool → Json → Json
pagination cursor truncated next = obj (
    member "cursor" (str cursor) (
      member "returned" (int 1) (
        member "page_size" (int 1)
          (member "truncated" (bool truncated) (member "next_cursor" next end)))))

abbrev page_payload : String → String → Bool → Json → Json
page_payload name cursor truncated next = obj (
    member "operation" (str "get_flow_results") (
      member "status" (str "success") (
        member "pagination" (pagination cursor truncated next)
          (member "data" (arr (cons (row name) nil)) end))))

abbrev files_payload : Json
files_payload = obj (
    member "operation" (str "list_flow_files") (
      member "status" (str "success")
        (member "data" (arr nil) (member "truncated" (bool false) end))))

-- the answer to the n-th call
abbrev answers : ℕ → Json
answers n =
    if n == 1
    then status_payload
    else if n == 2
    then page_payload "a" "v1:0" true (str "v1:1")
    else if n == 3
    then page_payload "b" "v1:1" false null
    else files_payload

abbrev pub calm : World
calm = record {
  clock = λ n. n;
  writable = λ n. true;
  list_tools = λ n timeout cursor. arrived (record {
    tools = listed "get_flow_status" ∷ listed "get_flow_results" ∷ listed "list_flow_files" ∷ [];
    next_cursor = none;
  });
  call_tool = λ n timeout name args.
      arrived (record { is_error = false; structured_content = some (answers n) });
  check_schema = λ schema. true;
  is_valid = λ schema value. true;
  dumps = λ value. some (b'{' ∷ b'}' ∷ []);
  dump_contract = λ found. some (b'{' ∷ b'}' ∷ []);
  dump_call = λ name args response. some (b'{' ∷ b'}' ∷ b'\n' ∷ []);
}

abbrev all_done : RunResult
all_done = record { outcome = complete; reason = finished; complete = true; error_code = none }

calm-run : run calm two_pages none start ≡ ok all_done (final (run calm two_pages none start))
unfolding run ◌>>=◌ begin monotonic phases load_contract list_pages bounded remaining add_tools
    install write_contract write attempt wait_finished poll call validator append_call checked
    error_reason error_code checked_payload next_page field warnings_count warnings_in backoff
    collect_pages pages page_of rows_of next_of lines_of save_page append_rows_page append_rows
    extend_sample project advance list_files
calm-run = refl

some_page : two_pages.max_pages ≢ 0
some_page h = absurd (omega (arith, h))

run-IsComplete_example :
    IsComplete two_pages (final (run calm two_pages none start))
    × AreWritten calm two_pages none (final (run calm two_pages none start)).rows
run-IsComplete_example =
    run-IsComplete calm two_pages none all_done (final (run calm two_pages none start)) some_page
      calm-run refl

run-IsSaved_example : IsSaved two_pages (collected (final (run calm two_pages none start)))
run-IsSaved_example = run-IsSaved calm two_pages none some_page

run-IsLogged_example : IsLogged two_pages calm (tally (final (run calm two_pages none start)))
run-IsLogged_example = run-IsLogged two_pages calm none

-- a size with which only one of two rows of the sample fits
abbrev ten_thousand_each : Summary → ℕ
ten_thousand_each t = 10000 * length t.sample_rows

abbrev sampled : Run
sampled = record start { sample_rows = row "a" ∷ row "b" ∷ []; rows_saved = 5 }

build_summary_longest_example :
    Ends
      (λ t s.
        (k : ℕ) × IsLongest ten_thousand_each two_pages sampled all_done 2 k
        × (t ≡ summary_of two_pages sampled all_done (take k sampled.sample_rows))
        × (t.sample_omitted_count + length t.sample_rows ≡ 5)
        × (s ≡ sampled))
      (λ e s.
        (e ≡ stop failed summary_overflow)
        × ((m : ℕ) → m ≤ 2 → ¬ (10000 * length (take m sampled.sample_rows) ≤ result_json_limit))
        × (s ≡ sampled))
      (build_summary ten_thousand_each two_pages all_done sampled)
build_summary_longest_example =
    build_summary_longest ten_thousand_each two_pages sampled all_done (omega arith)

-- a row that is no dict: a list without the name, and a text with it
project-list : project ("a" ∷ []) (arr (cons (str "b") nil)) ≡ some (obj end)
unfolding project
project-list = refl

project-text : project ("a" ∷ []) (str "cab") ≡ none
unfolding project
project-text = refl
