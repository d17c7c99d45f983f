-- ===== src/Attempts/Calls.antt =====
-- `accept`, `finish` and `close` of `ArchiveAttemptLedger` in velociraptor_observation_attempts.py,
-- and the histories of its steps.
use mcp_velociraptor.Attempts.Begin.{begin}
use mcp_velociraptor.Json.Same.{same_json}
use text.Mathlib.Text.{◌==◌ as str_eq}
use mcp_velociraptor.Prelude.{
  all, not, ◌==◌, ◌+◌, ℕ, ◌||◌, Option, ◌&&◌, String, List, Bool, if◌then◌else◌, true, false, none,
  some, [], ◌∷◌,
}
use mcp_velociraptor.Json.{contains, Json}
use mcp_velociraptor.Protocol.Faults.{failing, expect, first, demand, Check, crash}
use mcp_velociraptor.Proc.{◌>>=◌, ◌>>◌, ok, pure, gets, modify, raise, on_error, some_or, final}
use mcp_velociraptor.Attempts.{
  nth, same_phase, owned, Phase, publish, poison, available, retire, set_phase, Answer, Method,
  Ledger, Attempt, Approved, begun, accepting, accepted, finishing, ended, lost, instance_begin,
  accept_ack, attempt_end, instance_end,
}

-- what the journal of a request says of itself; `is_owned` is `journal._owner is not None`
pub record Diagnostics : Type 0 where
  pub closed : Bool
  pub is_sealed : Bool
  pub poisoned : Bool
  pub close_failed : Bool
  pub is_owned : Bool
  pub head : Json
  pub record_count : ℕ
  pub total_bytes : ℕ
  pub event_count : ℕ

-- `_RequestPublisher`; its head is the reference that it returned last, without the path
pub record Publisher : Type 0 where
  pub closed : Bool
  pub close_failed : Bool
  pub count : ℕ
  pub total : ℕ
  pub head : Json

-- what the codec finds in the records that were read back, and their bytes
pub record Readback : Type 0 where
  pub is_same_directory : Bool
  pub key : Json
  pub tool : String
  pub arguments_sha256 : String
  pub acceptance_sequence : ℕ
  pub outcome : String
  pub status : String
  pub head : Json
  pub event_count : ℕ
  pub actual_bytes : ℕ

abbrev is_known : Diagnostics → Publisher → Bool
is_known g p =
    g.is_sealed
    && not g.poisoned
    && not g.close_failed
    && p.closed
    && not p.close_failed
    && g.is_owned

abbrev is_status : String → Bool
is_status s = str_eq s "COMPLETE" || str_eq s "FAILED"

-- `request_originals_differ`
abbrev is_original : Attempt → String → Diagnostics → Publisher → Readback → Bool
is_original a outcome g p r =
    same_json r.key a.key
    && str_eq r.tool a.tool
    && str_eq r.arguments_sha256 a.sha
    && (r.acceptance_sequence == a.sequence)
    && str_eq r.outcome outcome
    && is_status r.status
    && same_json r.head p.head
    && same_json g.head r.head
    && (r.actual_bytes == p.total)
    && (g.record_count == p.count)
    && (g.total_bytes == p.total)
    && (g.event_count == r.event_count)

-- the checks of `finish`, where the records were read back or raised
unfoldable pub finish_checks : Attempt → String → Diagnostics → Publisher → Option Readback → Check
finish_checks a outcome g p none =
    first (expect (is_known g p) "journal_not_known" ∷ some crash ∷ [])
finish_checks a outcome g p (some r) = first (
    expect (is_known g p) "journal_not_known"
    ∷ expect r.is_same_directory "request_directory_differs"
    ∷ expect (is_original a outcome g p r) "request_originals_differ"
    ∷ [])

abbrev pub outcomes : List String
outcomes = "returned" ∷ "raised" ∷ "cancelled" ∷ []

-- How the journal answers `finish`: its diagnostics raise, it is not closed, or it is, and then the
-- outcome, what was found, and the payload of the record of the end.
pub data Closing : Type 0 where
  unreadable : Closing
  still_open : Closing
  closed_with : String → Diagnostics → Publisher → Option Readback → Json → Closing

module _ (d : Approved) where
  abbrev pub close_up : Ledger → Ledger
  close_up s = record s { is_closed = true }

  -- the first record, with the handler of `_initialize`
  unfoldable pub begin_instance : Answer → Method (Unit {0})
  begin_instance answer = on_error (λ s. close_up (poison s)) (publish d instance_begin answer)

  -- `accept` up to the work on the directory of the request
  unfoldable pub accept_start : ℕ → Method (Unit {0})
  accept_start n = available >> (owned n begun >> modify (set_phase n accepting))

  abbrev pub give_up : ℕ → Ledger → Ledger
  give_up n s = retire n (set_phase n lost (poison s))

  -- the rest of `accept`, where the journal was opened with this reference, or something raised
  unfoldable pub accept_end : ℕ → Option Json → Answer → Method (Unit {0})
  accept_end n opened answer = on_error (give_up n) (do
    ref ← some_or crash opened
    available
    publish d (accept_ack (n + 1) ref) answer
    modify (λ s. record (set_phase n accepted s) { accepted = s.accepted + 1 }))

  abbrev pub open_ledger : Method (Unit {0})
  open_ledger s = demand (expect (not s.is_closed && not s.is_closing) "ledger_closed") s

  -- `finish` up to the journal's diagnostics
  unfoldable pub finish_start : String → ℕ → Method (Unit {0})
  finish_start outcome n =
      demand (expect (contains outcomes outcome) "outcome_invalid")
      >> (open_ledger >> (owned n accepted >> modify (set_phase n finishing)))

  abbrev pub judged : String → Diagnostics → Publisher → Option Readback → Option Attempt → Check
  judged outcome g p r none = some crash
  judged outcome g p r (some a) = finish_checks a outcome g p r

  abbrev pub judge : ℕ → String → Diagnostics → Publisher → Option Readback → Method (Unit {0})
  judge n outcome g p r s = demand (judged outcome g p r (nth n s.attempts)) s

  -- the rest of `finish`
  unfoldable pub finish_end : ℕ → Closing → Answer → Method (Unit {0})
  finish_end n unreadable answer = modify (λ s. set_phase n accepted (poison s)) >> raise crash
  finish_end n still_open answer =
      modify (set_phase n accepted) >> raise (failing "journal_not_closed")
  finish_end n (closed_with outcome g p r payload) answer = do
    on_error (give_up n) (do
      judge n outcome g p r
      available
      publish d (attempt_end (n + 1) payload) answer
      modify (set_phase n ended))
    modify (retire n)

  abbrev pub is_ended : Attempt → Bool
  is_ended a = same_phase a.phase ended

  abbrev pub all_known : Method (Unit {0})
  all_known s = demand (expect (not s.is_unknown && all is_ended s.attempts) "ledger_unknown") s

  -- the record of the end
  unfoldable pub end_instance : Answer → Method (Unit {0})
  end_instance answer = do
    s ← gets (λ s. s)
    publish d (instance_end s.attempt_count s.accepted s.rejected) answer

  -- `_cleanup` closes each resource, and says whether all of them closed
  abbrev pub cleanup : Bool → Method (Unit {0})
  cleanup is_clean =
      if is_clean then pure tt else modify poison >> raise (failing "archive_resource_close_failed")

  abbrev pub idle : Method (Unit {0})
  idle s = demand (expect (s.active == 0) "active_attempts_remain") s

  -- `close` of a ledger that is not closed
  unfoldable pub close_open : Answer → Bool → Method (Unit {0})
  close_open answer is_clean = do
    idle
    modify (λ s. record s { is_closing = true })
    on_error (λ s. close_up (poison s)) (all_known >> end_instance answer)
    modify close_up
    cleanup is_clean

  abbrev pub closed_check : Ledger → Check
  closed_check s = expect (not s.is_unknown) "ledger_closed_unknown"

  -- `close`
  unfoldable pub close : Answer → Bool → Method (Unit {0})
  close answer is_clean s =
      if s.is_closed then demand (closed_check s) s else close_open answer is_clean s

  -- A call of `begin` or `close` holds the lock of the catalog and is one step. The work of `accept`
  -- and `finish` between their two steps holds no lock, so other steps may come there. The publisher of
  -- a request may poison the ledger.
  pub data Event : Type 0 where
    opens : Answer → Event
    begins : Json → String → String → Answer → Answer → Event
    starts_accept : ℕ → Event
    ends_accept : ℕ → Option Json → Answer → Event
    starts_finish : String → ℕ → Event
    ends_finish : ℕ → Closing → Answer → Event
    closes : Answer → Bool → Event
    poisons : Event

  abbrev pub ignore : {A : Type 0} → Method A → Method (Unit {0})
  ignore m = m >>= λ _. pure tt

  abbrev pub has_phase : ℕ → Phase → Ledger → Bool
  has_phase n p s = elim (nth n s.attempts) [ none ↦ false | some a ↦ same_phase a.phase p ]

  -- the second step of a call comes after its first one only
  abbrev pub after : ℕ → Phase → Method (Unit {0}) → Method (Unit {0})
  after n p m s = if has_phase n p s then m s else ok tt s

  unfoldable pub perform : Event → Method (Unit {0})
  perform (opens answer) = begin_instance answer
  perform (begins key tool sha a b) = ignore (begin d key tool sha a b)
  perform (starts_accept n) = accept_start n
  perform (ends_accept n opened answer) = after n accepting (accept_end n opened answer)
  perform (starts_finish outcome n) = finish_start outcome n
  perform (ends_finish n closing answer) = after n finishing (finish_end n closing answer)
  perform (closes answer is_clean) = close answer is_clean
  perform poisons = modify poison

  -- the ledger after some steps, each of which may return or raise
  unfoldable pub history : List Event → Ledger → Ledger
  history [] s = s
  history (e ∷ es) s = history es (final (perform e s))
