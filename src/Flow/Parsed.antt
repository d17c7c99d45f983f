-- ===== src/Flow/Parsed.antt =====
-- `parse_spec` of velo_flow/spec.py and `run` of velo_flow/coordinator.py together.
use mcp_velociraptor.Bytes.{total}
use mcp_velociraptor.Flow.Completion.{run-IsSaved}
use mcp_velociraptor.Flow.Tally.{run-IsLogged}
use mcp_velociraptor.Flow.Coordinator.{run}
use mcp_velociraptor.Proc.{final}
use mcp_velociraptor.Flow.Frame.{collected}
use mcp_velociraptor.Flow.Saved.{IsSaved}
use mcp_velociraptor.Flow.Log.{tally, Tally, IsLogged, IsOverrun}
use mcp_velociraptor.Flow.Requests.{parse_spec-IsRequest, IsRequest}
use mcp_velociraptor.Flow.Model.{start, World, Run, log_slot_reserve}
use mcp_velociraptor.Flow.Request.{parse_spec, Request, Python}
use mcp_velociraptor.Prelude.{◌≢◌, arith, ◌⊎◌, inl, inr, ◌+◌, ◌≡◌, Option, length, List, ◌≤◌, ℕ}

-- The limits of every run, in calls, bytes and rows.
pub record IsBounded (w : World) (s : Run) : Type 0 where
  pub status_calls_in : s.status_calls ≤ 512
  pub results_calls_in : s.results_calls ≤ 1000
  pub files_calls_in : s.files_calls ≤ 1
  pub log_in : (s.calls_bytes ≤ 268435456) ⊎ IsOverrun w 268435456 (tally s)
  pub rows_in : s.rows_bytes ≤ 268435456
  pub sample_in : length s.sample_rows ≤ 10

le-le : (a b c : ℕ) → a ≤ b → b ≤ c → a ≤ c
le-le a b c h k = omega arith

log_larger :
    (w : World) (n m : ℕ) (t : Tally)
    → n ≤ m
    → (t.calls_bytes ≤ n) ⊎ IsOverrun w n t
    → (t.calls_bytes ≤ m) ⊎ IsOverrun w m t
log_larger w n m t le (inl h) = inl (le-le t.calls_bytes n m h le)
log_larger w n m t le (inr o) =
    let e = o.earlier in
    inr (record {
      incomplete = o.incomplete;
      earlier = e;
      tool = o.tool;
      args = o.args;
      line = o.line;
      dumped = o.dumped;
      last = o.last;
      free = le-le (total e + log_slot_reserve) n m o.free le;
    })

some_page : (n : ℕ) → 1 ≤ n → n ≢ 0
some_page n h e = omega arith

saved-IsBounded :
    (w : World) (unit : ℕ) (r : Request) (s : Run)
    → IsRequest unit r
    → IsLogged r.spec w (tally s)
    → IsSaved r.spec (collected s)
    → IsBounded w s
saved-IsBounded w unit r s q h k =
    let log = q.log_bytes_in.1 in
    let bytes = q.result_bytes_in.1 in
    let pages = q.pages_in.1 in
    let calls = q.status_calls_in.1 in
    record {
      status_calls_in = le-le s.status_calls r.spec.max_status_calls 512 h.status_in calls;
      results_calls_in = le-le s.results_calls r.spec.max_pages 1000 h.results_in pages;
      files_calls_in = h.files_in;
      log_in = log_larger w r.spec.max_log_bytes 268435456 (tally s) log h.log_in;
      rows_in = le-le s.rows_bytes r.spec.max_result_bytes 268435456 k.within bytes;
      sample_in =
          le-le (length s.sample_rows) r.spec.sample_rows 10 k.sample_within q.sample_rows_in;
    }

-- However a run of a request that `parse_spec` accepts ends, it has made at most 512 calls for the
-- status, 1000 for results and one for files, its rows have at most 256 MiB, and its sample at most
-- ten rows. Its log has at most 256 MiB too, or it is marked as incomplete and does so without its
-- last line, the marker of an oversized record, with 1 MiB to spare.
pub parsed-run-IsBounded :
    (py : Python) (w : World) (raw : List ℕ) (r : Request) (deadline : Option ℕ)
    → parse_spec py raw ≡ inl r
    → IsBounded w (final (run w r.spec deadline start))
parsed-run-IsBounded py w raw r deadline e =
    let q = parse_spec-IsRequest py raw r e in
    saved-IsBounded w py.unit r (final (run w r.spec deadline start)) q
      (run-IsLogged r.spec w deadline)
      (run-IsSaved w r.spec deadline (some_page r.spec.max_pages q.pages_in.0))
