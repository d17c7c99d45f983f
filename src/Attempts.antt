-- ===== src/Attempts.antt =====
-- The object of `ArchiveAttemptLedger` of velociraptor_observation_attempts.py, and how it publishes a
-- record in its catalog.
pub mod Begin
pub mod Calls
pub mod Counts
pub mod Rules
pub mod Invariant
pub mod Places
pub mod Settled
pub mod Final
pub mod Closed
mod Tests
use mcp_velociraptor.Prelude.{
  ◌||◌, not, leb, length, ◌&&◌, ltb, ◌==◌, ◌-◌, ◌+◌, ℕ, String, Option, List, Bool, if◌then◌else◌,
  true, false, none, some, [], ◌∷◌, zero, suc,
}
use mcp_velociraptor.Json.{is_text, is_dict, has_keys, Json, int}
use mcp_velociraptor.Protocol.Faults.{item, failing, expect, demand, Fault, Check, crash}
use mcp_velociraptor.Proc.{◌>>◌, ◌>>=◌, Proc, gets, modify, on_error, some_or}

pub data Phase : Type 0 where
  begun : Phase
  accepting : Phase
  accepted : Phase
  finishing : Phase
  ended : Phase
  lost : Phase

-- `_Attempt`, but for its directory, its publisher and its journal; `is_new` is the decision NEW and
-- `lost` the state UNKNOWN
pub record Attempt : Type 0 where
  pub sequence : ℕ
  pub key : Json
  pub tool : String
  pub sha : String
  pub is_new : Bool
  pub phase : Phase
  pub active : Bool

-- Why an attempt is refused, if it is.
pub data Reason : Type 0 where
  allowed : Reason
  duplicate : Reason
  active_limit : Reason
  seen_limit : Reason
  byte_limit : Reason

-- the records of the catalog
pub data Entry : Type 0 where
  instance_begin : Entry
  attempt_begin : Attempt → Reason → Entry
  accept_ack : ℕ → Json → Entry
  attempt_end : ℕ → Json → Entry
  instance_end : ℕ → ℕ → ℕ → Entry

-- The attempts are in the order of their sequence, and a lease is a position among them. The head is
-- the bytes of the last record, whose size and digest the code keeps.
pub record Ledger : Type 0 where
  pub attempts : List Attempt
  pub seen : List (List ℕ)
  pub seen_bytes : ℕ
  pub attempt_count : ℕ
  pub active : ℕ
  pub request_reserve : ℕ
  pub accepted : ℕ
  pub rejected : ℕ
  pub catalog_count : ℕ
  pub catalog_bytes : ℕ
  pub head : Option (List ℕ)
  pub is_unknown : Bool
  pub is_closed : Bool
  pub is_closing : Bool

-- The budgets of the configuration and of its two codecs, the encoder of the catalog (none where it
-- raises), SHA-256, `f'{n:08d}.json'`, and `_key` and `_canonical(key)[:-1]` of the archive.
pub record Approved : Type 0 where
  pub instance_id : String
  pub max_attempts : ℕ
  pub max_active : ℕ
  pub max_key_bytes : ℕ
  pub max_seen_key_bytes : ℕ
  pub max_total_archive_bytes : ℕ
  pub max_catalog_records : ℕ
  pub max_catalog_record_bytes : ℕ
  pub catalog_total_bytes : ℕ
  pub codec_total_bytes : ℕ
  pub codec_record_bytes : ℕ
  pub encode : ℕ → Option (List ℕ) → Entry → Option (List ℕ)
  pub sha256 : List ℕ → String
  pub file_name : ℕ → String
  pub check_key : Json → Check
  pub canonical_key : Json → List ℕ

-- what the directories and the publisher of the catalog answer
pub record Answer : Type 0 where
  pub checked_before : Bool
  pub result : Option Json
  pub checked_after : Bool

-- a ledger before the first record of its catalog
abbrev pub new_ledger : Ledger
new_ledger = record {
  attempts = [];
  seen = [];
  seen_bytes = 0;
  attempt_count = 0;
  active = 0;
  request_reserve = 0;
  accepted = 0;
  rejected = 0;
  catalog_count = 0;
  catalog_bytes = 0;
  head = none;
  is_unknown = false;
  is_closed = false;
  is_closing = false;
}

abbrev pub Method : Type 0 → Type 0
Method A = Proc Ledger Fault A

abbrev pub nth : {A : Type 0} → ℕ → List A → Option A
nth n [] = none
nth zero (x ∷ xs) = some x
nth (suc n) (x ∷ xs) = nth n xs

abbrev pub change : {A : Type 0} → ℕ → (A → A) → List A → List A
change n f [] = []
change zero f (x ∷ xs) = f x ∷ xs
change (suc n) f (x ∷ xs) = x ∷ change n f xs

abbrev pub same_phase : Phase → Phase → Bool
same_phase begun begun = true
same_phase accepting accepting = true
same_phase accepted accepted = true
same_phase finishing finishing = true
same_phase ended ended = true
same_phase lost lost = true
same_phase _ _ = false

-- an `int` that equals the number
abbrev is_size : ℕ → Json → Bool
is_size n (int m) = m == n
is_size n _ = false

-- `_poison`
abbrev pub poison : Ledger → Ledger
poison s = record s { is_unknown = true }

abbrev pub with_attempts : List Attempt → Ledger → Ledger
with_attempts xs s = record s { attempts = xs }

-- `attempt.state = ...`
abbrev pub set_phase : ℕ → Phase → Ledger → Ledger
set_phase n p s = with_attempts (change n (λ a. record a { phase = p }) s.attempts) s

abbrev pub is_active_at : ℕ → List Attempt → Bool
is_active_at n xs = elim (nth n xs) [ none ↦ false | some a ↦ a.active ]

-- `_retire`
unfoldable pub retire : ℕ → Ledger → Ledger
retire n s =
    if is_active_at n s.attempts
    then record s {
      attempts = change n (λ a. record a { active = false }) s.attempts;
      active = s.active - 1;
    }
    else s

-- `_available`
unfoldable pub available : Method (Unit {0})
available s =
    demand (expect (not (s.is_closed || s.is_closing || s.is_unknown)) "ledger_unavailable") s

abbrev pub owned_check : Phase → Option Attempt → Check
owned_check p none = some (failing "attempt_not_owned")
owned_check p (some a) = expect (a.is_new && same_phase a.phase p) "attempt_reentry_or_phase"

-- `_owned`
unfoldable pub owned : ℕ → Phase → Method (Unit {0})
owned n p s = demand (owned_check p (nth n s.attempts)) s

module _ (d : Approved) where
  -- `_ack`
  unfoldable pub ack : Json → List ℕ → ℕ → Check
  ack result raw sequence =
      expect
        (has_keys ("ref" ∷ "identity" ∷ []) result
          && is_dict (item "identity" result)
          && has_keys ("path" ∷ "size" ∷ "sha256" ∷ []) (item "ref" result)
          && is_text (d.file_name sequence) (item "path" (item "ref" result))
          && is_size (length raw) (item "size" (item "ref" result))
          && is_text (d.sha256 raw) (item "sha256" (item "ref" result)))
        "publication_ack_differs"

  abbrev pub record_published : List ℕ → Ledger → Ledger
  record_published raw s = record s {
    head = some raw;
    catalog_count = s.catalog_count + 1;
    catalog_bytes = s.catalog_bytes + length raw;
  }

  abbrev pub lost_answer : Bool → Check
  lost_answer is_fine = if is_fine then none else some crash

  -- the part of `_publish` that its handler guards
  unfoldable pub exchange : List ℕ → Answer → Method (Unit {0})
  exchange raw answer = do
    demand (lost_answer answer.checked_before)
    result ← some_or crash answer.result
    s ← gets (λ s. s)
    demand (ack result raw s.catalog_count)
    demand (lost_answer answer.checked_after)

  abbrev pub has_room : List ℕ → Ledger → Bool
  has_room raw s =
      ltb s.catalog_count d.max_catalog_records
      && leb (s.catalog_bytes + length raw) d.catalog_total_bytes

  abbrev pub room : List ℕ → Method (Unit {0})
  room raw s = demand (expect (has_room raw s) "catalog_budget") s

  -- `_publish`
  unfoldable pub publish : Entry → Answer → Method (Unit {0})
  publish entry answer = do
    s ← gets (λ s. s)
    raw ← some_or crash (d.encode s.catalog_count s.head entry)
    room raw
    on_error poison (exchange raw answer)
    modify (record_published raw)
