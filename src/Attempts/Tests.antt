-- ===== src/Attempts/Tests.antt =====
-- One attempt, from its begin to the close of the ledger.
use mcp_velociraptor.Attempts.Invariant.{history-IsLedger}
use mcp_velociraptor.Attempts.Final.{history-settled}
use mcp_velociraptor.Proc.{ok}
use mcp_velociraptor.Attempts.Counts.{IsLedger}
use mcp_velociraptor.Attempts.Closed.{close-IsKnown, IsLeft}
use mcp_velociraptor.Attempts.Settled.{IsAt}
use mcp_velociraptor.Text.{is_hex}
use mcp_velociraptor.Proc.{◌>>=◌}
use mcp_velociraptor.Attempts.Begin.{begin, begin_locked, record_begin, reserve}
use mcp_velociraptor.Attempts.{Attempt, available, publish, exchange, ack, owned, retire}
use mcp_velociraptor.Attempts.Calls.{
  Readback, Publisher, Diagnostics, perform, finish_start, finish_end, accept_start, accept_end,
  begin_instance, close_open, end_instance,
}
use mcp_velociraptor.Json.Same.{same_json}
use mcp_velociraptor.Attempts.Calls.{finish_checks}
use mcp_velociraptor.Prelude.{
  ◌+◌, ℕ, Bool, arith, ◌≡◌, String, List, refl, true, false, none, some, [], ◌∷◌, inl,
}
use mcp_velociraptor.Json.{Json, str, int, obj, member, end}
use mcp_velociraptor.Attempts.{new_ledger, Ledger, Approved, Answer, ended}
use mcp_velociraptor.Attempts.Calls.{
  close, perform, Event, history, opens, begins, starts_accept, ends_accept, starts_finish,
  ends_finish, closed_with,
}

abbrev hash : String
hash = "0123456789abcdef0123456789abcdef0123456789abcdef0123456789abcdef"

abbrev approved : Approved
approved = record {
  instance_id = "i";
  max_attempts = 1;
  max_active = 1;
  max_key_bytes = 9;
  max_seen_key_bytes = 9;
  max_total_archive_bytes = 100;
  max_catalog_records = 5;
  max_catalog_record_bytes = 2;
  catalog_total_bytes = 10;
  codec_total_bytes = 9;
  codec_record_bytes = 3;
  encode = λ _ _ _. some (1 ∷ 2 ∷ []);
  sha256 = λ _. hash;
  file_name = λ _. "00000000.json";
  check_key = λ _. none;
  canonical_key = λ _. 97 ∷ [];
}

abbrev reply : Answer
reply = record {
  checked_before = true;
  result = some (
      obj (
        member "ref"
          (obj (
            member "path" (str "00000000.json")
              (member "size" (int 2) (member "sha256" (str hash) end))))
          (member "identity" (obj end) end)));
  checked_after = true;
}

abbrev request_key : Json
request_key = obj (member "instance_id" (str "i") end)

abbrev diagnostics : Diagnostics
diagnostics = record {
  closed = true;
  is_sealed = true;
  poisoned = false;
  close_failed = false;
  is_owned = true;
  head = str "head";
  record_count = 2;
  total_bytes = 7;
  event_count = 0;
}

abbrev publisher : Publisher
publisher = record { closed = true; close_failed = false; count = 2; total = 7; head = str "head" }

abbrev readback : Readback
readback = record {
  is_same_directory = true;
  key = request_key;
  tool = "tool";
  arguments_sha256 = hash;
  acceptance_sequence = 1;
  outcome = "returned";
  status = "COMPLETE";
  head = str "head";
  event_count = 0;
  actual_bytes = 7;
}

abbrev work : List (Event approved)
work =
    opens reply
    ∷ begins request_key "tool" hash reply reply
    ∷ starts_accept 0
    ∷ ends_accept 0 (some (str "ref")) reply
    ∷ starts_finish "returned" 0
    ∷ ends_finish 0 (closed_with "returned" diagnostics publisher (some readback) (str "COMPLETE"))
        reply
    ∷ []

new_ledger-IsLedger : IsLedger approved new_ledger
new_ledger-IsLedger = (
  record { counted = refl; placed = refl; within = omega arith; few = omega arith },
  (omega arith, omega arith),
  inl refl,
)

history-IsLedger_example : IsLedger approved (history approved work new_ledger)
history-IsLedger_example = history-IsLedger approved work new_ledger new_ledger-IsLedger

-- what that work leaves
abbrev done_attempt : Attempt
done_attempt = record {
  sequence = 1;
  key = request_key;
  tool = "tool";
  sha = hash;
  is_new = true;
  phase = ended;
  active = false;
}

abbrev done_ledger : Bool → ℕ → Ledger
done_ledger is_shut records = record {
  attempts = done_attempt ∷ [];
  seen = (97 ∷ []) ∷ [];
  seen_bytes = 1;
  attempt_count = 1;
  active = 0;
  request_reserve = 9;
  accepted = 1;
  rejected = 0;
  catalog_count = records;
  catalog_bytes = records + records;
  head = some (1 ∷ 2 ∷ []);
  is_unknown = false;
  is_closed = is_shut;
  is_closing = is_shut;
}

work-done : history approved work new_ledger ≡ done_ledger false 4
unfolding history perform finish_start finish_end accept_start accept_end available begin is_hex
    begin_locked begin_instance publish exchange ack record_begin reserve owned retire finish_checks
    same_json ◌>>=◌
work-done = refl

history-settled_example : IsAt 0 ended (history approved work (done_ledger false 4))
history-settled_example =
    history-settled approved 0 ended refl work (done_ledger false 4) (refl, refl)

done_ledger-closes : close approved reply true (done_ledger false 4) ≡ ok tt (done_ledger true 5)
unfolding close close_open end_instance publish exchange ack ◌>>=◌
done_ledger-closes = refl

close-IsKnown_example : IsLeft approved (done_ledger false 4) (done_ledger true 5)
close-IsKnown_example =
    close-IsKnown approved reply true (done_ledger false 4) (done_ledger true 5) done_ledger-closes
