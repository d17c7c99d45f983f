-- ===== src/Attempts/Begin.antt =====
-- `begin` of `ArchiveAttemptLedger` in velociraptor_observation_attempts.py.
use mcp_velociraptor.Text.{is_hex}
use mcp_velociraptor.Wire.Frame.{same_bytes}
use text.Mathlib.Text.{◌==◌ as str_eq}
use mcp_velociraptor.Prelude.{
  ltb, length, is_none, ◌*◌, not, leb, any, ◌++◌, ◌+◌, ℕ, ◌&&◌, String, List, Bool, if◌then◌else◌,
  true, false, none, some, [], ◌∷◌,
}
use mcp_velociraptor.Json.{is_text, Json, str}
use mcp_velociraptor.Protocol.Faults.{item, expect, first, demand, Check, crash}
use mcp_velociraptor.Proc.{◌>>=◌, ◌>>◌, pure, gets, modify, on_error}
use mcp_velociraptor.Attempts.{
  publish, poison, available, retire, set_phase, Answer, Method, Ledger, Reason, Attempt, Approved,
  begun, ended, allowed, duplicate, active_limit, seen_limit, byte_limit, attempt_begin,
  attempt_end,
}

abbrev pub is_allowed : Reason → Bool
is_allowed allowed = true
is_allowed _ = false

abbrev pub is_seen : List ℕ → List (List ℕ) → Bool
is_seen raw seen = any (λ k. same_bytes k raw) seen

module _ (d : Approved) where
  abbrev pub parent_check : Json → String → String → Check
  parent_check key tool sha = first (
      d.check_key key
      ∷ expect
          (is_text d.instance_id (item "instance_id" key) && not (str_eq tool "") && is_hex 64 sha)
          "attempt_parent_invalid"
      ∷ expect (leb (length (d.canonical_key key)) d.max_key_bytes) "key_budget"
      ∷ [])

  -- what the archive holds besides the requests
  abbrev pub overhead : ℕ
  overhead =
      (3 * d.max_attempts + 2) * d.max_catalog_record_bytes
      + d.max_active * d.codec_record_bytes
      + d.max_catalog_record_bytes

  -- the bytes of the archive with one more request
  abbrev pub archive_bytes : ℕ → ℕ
  archive_bytes reserve = reserve + d.codec_total_bytes + overhead

  abbrev pub reason_of : List ℕ → Ledger → Reason
  reason_of raw s =
      if is_seen raw s.seen
      then duplicate
      else if leb d.max_active s.active
      then active_limit
      else if ltb d.max_seen_key_bytes (s.seen_bytes + length raw)
      then seen_limit
      else if ltb d.max_total_archive_bytes (archive_bytes s.request_reserve)
      then byte_limit
      else allowed

  abbrev pub add_seen : List ℕ → Ledger → Ledger
  add_seen raw s =
      if is_seen raw s.seen
      then s
      else record s { seen = raw ∷ s.seen; seen_bytes = s.seen_bytes + length raw }

  abbrev pub add_attempt : Attempt → Ledger → Ledger
  add_attempt a s = record s {
    attempts = s.attempts ++ a ∷ [];
    attempt_count = s.attempt_count + 1;
  }

  abbrev pub add_active : Bool → Ledger → Ledger
  add_active is_new s =
      if is_new
      then record s {
        active = s.active + 1;
        request_reserve = s.request_reserve + d.codec_total_bytes;
      }
      else s

  -- the reservation of `begin`
  unfoldable pub reserve : List ℕ → Attempt → Ledger → Ledger
  reserve raw a s = add_active a.is_new (add_seen raw (add_attempt a s))

  abbrev pub new_attempt : Json → String → String → List ℕ → Ledger → Attempt
  new_attempt key tool sha raw s =
      let is_new = is_allowed (reason_of raw s) in
      record {
        sequence = s.attempt_count + 1;
        key = key;
        tool = tool;
        sha = sha;
        is_new = is_new;
        phase = begun;
        active = is_new;
      }

  abbrev pub reject : ℕ → Ledger → Ledger
  reject n s = record (set_phase n ended s) { rejected = s.rejected + 1 }

  -- the end of an attempt that was refused
  abbrev pub rejection : ℕ → Attempt → Answer → Method (Unit {0})
  rejection n a answer =
      if a.is_new
      then pure tt
      else publish d (attempt_end a.sequence (str "REJECTED")) answer >> modify (reject n)

  -- the records of `begin` for the attempt at this place
  unfoldable pub record_begin : ℕ → Attempt → Reason → Answer → Answer → Method (Unit {0})
  record_begin n a reason first_answer second_answer =
      on_error (λ s. retire n (poison s))
        (do publish d (attempt_begin a reason) first_answer; rejection n a second_answer)

  abbrev pub more : Method (Unit {0})
  more s = demand (expect (ltb s.attempt_count d.max_attempts) "attempt_budget_exhausted") s

  abbrev pub formatted : Attempt → Reason → Method (Unit {0})
  formatted a reason s =
      demand
        (if is_none (d.encode s.catalog_count s.head (attempt_begin a reason))
          then some crash
          else none)
        s

  -- the part of `begin` under the lock of the catalog
  unfoldable pub begin_locked : Json → String → String → Answer → Answer → Method ℕ
  begin_locked key tool sha first_answer second_answer = do
    available
    more
    s ← gets (λ s. s)
    formatted (new_attempt key tool sha (d.canonical_key key) s) (reason_of (d.canonical_key key) s)
    modify (λ t. reserve (d.canonical_key key) (new_attempt key tool sha (d.canonical_key key) t) t)
    record_begin s.attempt_count (new_attempt key tool sha (d.canonical_key key) s)
        (reason_of (d.canonical_key key) s) first_answer second_answer
    pure s.attempt_count

  -- `begin`, whose lease is the place of the attempt
  unfoldable pub begin : Json → String → String → Answer → Answer → Method ℕ
  begin key tool sha first_answer second_answer =
      demand (parent_check key tool sha) >> begin_locked key tool sha first_answer second_answer
