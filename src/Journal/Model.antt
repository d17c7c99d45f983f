-- ===== src/Journal/Model.antt =====
-- `RequestJournal` of velociraptor_observation_journal.py. The codec and the publisher are given.
use text.Mathlib.Text.{◌==◌ as str_eq}
use mcp_velociraptor.Proc.{
  pure, some_or, on_error, gets, ◌>>◌, ◌>>=◌, final, err, raise, ok, require, modify, Proc, Exit,
}
use mcp_velociraptor.Prelude.{
  is_none, ◌∷◌, ◌++◌, ◌||◌, [], ◌+◌, ◌&&◌, some, not, length, leb, if◌then◌else◌, false, ◌==◌, ℕ,
  true, none, String, Option, List, Bool,
}

pub data Kind : Type 0 where
  accept event seal_record : Kind

-- `{'size': …, 'sha256': …}` of the record before
pub record Head : Type 0 where
  pub size : ℕ
  pub sha256 : String

pub data Payload : Type 0 where
  -- the payload of the accepting record: its key, tool and digest of arguments
  accepted : String → String → String → Payload
  -- an event with its own sequence number and its content
  observed : Option ℕ → String → Payload
  -- the outcome, whether the status is FAILED, and the number of events
  sealing : String → Bool → ℕ → Payload

-- a record that the codec encodes
pub record Entry : Type 0 where
  pub kind : Kind
  pub sequence : ℕ
  pub previous : Option Head
  pub payload : Payload

-- What `publish` gives back: `path`, `size` and `sha256`; `malformed` is any other value.
pub data Ack : Type 0 where
  ref : ℕ → ℕ → String → Ack
  malformed raised : Ack

pub data Refusal : Type 0 where
  journal_error codec_error publisher_error : Refusal

-- The codec's limits and encoder, the digest, the publisher's answer to its n-th call, and
-- whether its `close` succeeds.
pub record Depends : Type 0 where
  pub max_records : ℕ
  pub max_record_bytes : ℕ
  pub max_total_bytes : ℕ
  pub encode : Entry → Option (List ℕ)
  pub sha256 : List ℕ → String
  pub publish : ℕ → List ℕ → Ack
  pub closes : Bool
  pub owns_publisher : Bool

-- The attributes of the journal. `published` are the records that the publisher has acknowledged,
-- `asked` counts its calls, and `closings` the calls of its `close`.
pub record Journal : Type 0 where
  pub owner : Option ℕ
  pub parent : Payload
  pub head : Option Head
  pub count : ℕ
  pub bytes : ℕ
  pub events : ℕ
  pub failed : Bool
  pub poisoned : Bool
  pub sealed : Bool
  pub closed : Bool
  pub close_failed : Bool
  pub published : List (List ℕ)
  pub asked : ℕ
  pub closings : ℕ

abbrev pub Method : Type 0 → Type 0
Method A = Proc Journal Refusal A

abbrev pub set_failed : Journal → Journal
set_failed s = record s { failed = true }

abbrev pub set_poisoned : Journal → Journal
set_poisoned s = record s { failed = true; poisoned = true }

abbrev pub head_of : (List ℕ → String) → List ℕ → Head
head_of sha256 raw = record { size = length raw; sha256 = sha256 raw }

-- the acknowledgment that `_publish` expects of a record; the path is its sequence number
abbrev pub is_expected : (List ℕ → String) → List ℕ → ℕ → Ack → Bool
is_expected sha256 raw sequence (ref path size digest) =
    (path == sequence) && (size == length raw) && str_eq digest (sha256 raw)
is_expected sha256 raw sequence malformed = false
is_expected sha256 raw sequence raised = false

abbrev pub count_record : (List ℕ → String) → List ℕ → Journal → Journal
count_record sha256 raw s = record s {
  head = some (head_of sha256 raw);
  count = s.count + 1;
  bytes = s.bytes + length raw;
  published = s.published ++ raw ∷ [];
}

module _ (d : Depends) where
  -- `_reserve`: room for the record, one more record, and a seal of the largest size
  unfoldable pub reserve : List ℕ → Method (Unit {0})
  reserve raw s =
      require
        (leb (s.count + 2) d.max_records
          && leb (s.bytes + length raw + d.max_record_bytes) d.max_total_bytes)
        journal_error s

  unfoldable pub ask : List ℕ → Method Ack
  ask raw s = ok (d.publish s.asked raw) (record s { asked = s.asked + 1 })

  abbrev pub acknowledged : Ack → Bool → Method (Unit {0})
  acknowledged raised b = raise publisher_error
  acknowledged _ b = require b journal_error

  -- `_publish`
  unfoldable pub publish : List ℕ → ℕ → Method (Unit {0})
  publish raw sequence = do
    on_error set_poisoned
        (do ack ← ask raw; acknowledged ack (is_expected d.sha256 raw sequence ack))
    modify (count_record d.sha256 raw)

  -- `_available`
  unfoldable pub available : Method (Unit {0})
  available s = require (not (s.poisoned || s.closed || s.sealed)) journal_error s

  -- `event.get('sequence') != sequence`
  abbrev pub is_sequence : ℕ → Payload → Bool
  is_sequence n (observed (some m) content) = m == n
  is_sequence n _ = false

  unfoldable pub append_event : Payload → Method (Unit {0})
  append_event payload = do
    s ← gets (λ s. s)
    require (not s.failed) journal_error
    require (leb (s.events + 2) 99999999 && is_sequence (s.events + 1) payload) journal_error
    raw ← some_or codec_error (
        d.encode
          (record { kind = event; sequence = s.events + 1; previous = s.head; payload = payload }))
    reserve raw
    publish raw (s.events + 1)
    modify (λ t. record t { events = t.events + 1 })

  -- `append`
  unfoldable pub append : Payload → Method (Unit {0})
  append payload = do available; on_error set_failed (append_event payload)

  unfoldable pub seal_chain : String → Bool → Method (Unit {0})
  seal_chain outcome failing = do
    s ← gets (λ s. s)
    require (not (s.failed && not failing)) journal_error
    raw ← some_or codec_error (
        d.encode (record {
          kind = seal_record;
          sequence = s.events + 1;
          previous = s.head;
          payload = sealing outcome failing s.events;
        }))
    require (leb (s.count + 1) d.max_records && leb (s.bytes + length raw) d.max_total_bytes)
        journal_error
    publish raw (s.events + 1)
    modify (λ t. record t { sealed = true })

  -- `seal`
  unfoldable pub seal : String → Bool → Method (Unit {0})
  seal outcome failing = do available; on_error set_poisoned (seal_chain outcome failing)

  unfoldable pub close_publisher : Method (Unit {0})
  close_publisher s =
      if d.closes
      then ok tt (record s { closings = s.closings + 1 })
      else err publisher_error
          (record s { closings = s.closings + 1; failed = true; close_failed = true })

  -- `close`
  unfoldable pub close : Method (Unit {0})
  close = do
    closed ← gets (λ s. s.closed)
    if closed then pure tt else (do
      modify (λ s. record s { closed = true })
      if d.owns_publisher then close_publisher else pure tt)

  -- `fail`
  unfoldable pub fail : Method (Unit {0})
  fail = modify set_failed

  abbrev pub same_parent : String → String → String → Payload → Bool
  same_parent key tool digest (accepted k t a) = str_eq k key && str_eq t tool && str_eq a digest
  same_parent key tool digest _ = false

  -- `claim`
  unfoldable pub claim : ℕ → String → String → String → Method (Unit {0})
  claim owner key tool digest = do
    s ← gets (λ s. s)
    require (is_none s.owner) journal_error
    modify (λ t. record t { owner = some owner })
    if s.closed || s.sealed || s.poisoned || s.failed || not (same_parent key tool digest s.parent)
        then (do modify set_failed; raise journal_error)
        else pure tt

  -- `self._owner is owner`
  abbrev pub is_owner : Option ℕ → Option ℕ → Bool
  is_owner none none = true
  is_owner (some o) (some p) = p == o
  is_owner _ _ = false

  -- `close_claim`
  unfoldable pub close_claim : Option ℕ → Method (Unit {0})
  close_claim owner = do s ← gets (λ s. s); if is_owner owner s.owner then close else pure tt

  abbrev pub empty : Payload → Journal
  empty parent = record {
    owner = none;
    parent = parent;
    head = none;
    count = 0;
    bytes = 0;
    events = 0;
    failed = false;
    poisoned = false;
    sealed = false;
    closed = false;
    close_failed = false;
    published = [];
    asked = 0;
    closings = 0;
  }

  unfoldable pub first_record : Payload → Method (Unit {0})
  first_record payload = do
    raw ←
        some_or codec_error
          (d.encode (record { kind = accept; sequence = 0; previous = none; payload = payload }))
    reserve raw
    publish raw 0

  -- the object after the failed `__init__` has closed it; the error of that `close` is only noted
  abbrev pub abandoned : Exit Journal Refusal (Unit {0}) → Journal
  abandoned (ok a s) = s
  abandoned (err e s) = final (close (set_failed s))

  -- `__init__`, with the journal that it makes or gives up
  unfoldable pub open_journal : Payload → Exit Journal Refusal (Unit {0})
  open_journal payload = elim (first_record payload (empty payload)) [
    | ok a s ↦ ok tt s
    | err e s ↦ err e (abandoned (err e s))
  ]
