-- ===== src/Request/Document.antt =====
-- `_validate_document`, `_parse` and `load_request` of velo_transfer/request.py.
use mcp_velociraptor.Protocol.Receipts.{checked}
use mcp_velociraptor.Paths.{starts_with, check_relative}
use mcp_velociraptor.Text.{codes, is_id}
use mcp_velociraptor.Protocol.Snapshot.{text_of}
use mcp_velociraptor.Request.{
  limited_text, side_path, sources_from, evidence, amount, validate_budget, posix, list_of, Library,
}
use text.Mathlib.Text.{◌==◌ as str_eq}
use mcp_velociraptor.Prelude.{
  is_none, ◌||◌, length, not, leb, any, ◌&&◌, all, ◌⊎◌, ℕ, Option, Bool, String, List,
  if◌then◌else◌, true, false, none, some, [], ◌∷◌, inl, inr,
}
use mcp_velociraptor.Json.{
  nil, keys, is_text, contains, cons, get, Members, Json, bool, str, arr, obj, end, member, put,
}
use mcp_velociraptor.Protocol.Faults.{
  object, failing, is_true, first, expect, Fault, item, Check, crash,
}
use mcp_velociraptor.Result.Outcome.{Parse, is_repeated}

-- `_REQUIRED`
abbrev required : List String
required =
    "schema" ∷ "direction" ∷ "sources" ∷ "destination_directory" ∷ "connection_profile"
    ∷ "expected_vm_identity" ∷ "evidence_context" ∷ "budget" ∷ []

-- `_REQUIRED <= set(value) <= _REQUIRED | _OPTIONAL`
abbrev has_fields : Json → Bool
has_fields (obj m) =
    all (contains (keys m)) required
    && all (contains ("transfer_id" ∷ "resume" ∷ required)) (keys m)
has_fields _ = false

-- `value[k] = v`
abbrev pub set_item : String → Json → Json → Json
set_item k v (obj m) = obj (put k v m)
set_item k v w = w

abbrev pub without_members : List String → Members → Members
without_members names end = end
without_members names (member k v m) =
    let rest = without_members names m in if contains names k then rest else member k v rest

-- `{k: v for k, v in value.items() if k not in names}`
abbrev pub without : List String → Json → Json
without names (obj m) = obj (without_members names m)
without names v = v

-- what comes after a call that returned
abbrev pub and_then : {A B : Type 0} → A ⊎ Fault → (A → B ⊎ Fault) → B ⊎ Fault
and_then (inl a) f = f a
and_then (inr e) f = inr e

module _ (l : Library) where
  -- `str(uuid.UUID(text))`, where the text in lower case is the same
  abbrev uuid_of : Json → Option String
  uuid_of (str s) = elim (l.uuid_text s) [
    | none ↦ none
    | some t ↦ if str_eq (l.lower s) t then some t else none
  ]
  uuid_of _ = none

  -- `len(canonical_json({...})) > max_metadata_bytes`
  abbrev metadata : ℕ → Json → Json → Check
  metadata limit sources evidence_context =
      elim (l.canonical_json
        (obj (member "sources" sources (member "evidence_context" evidence_context end)))) [
          | none ↦ some crash
          | some raw ↦ expect (leb (length raw) limit) "metadata_budget_exceeded"
        ]

  abbrev is_sources : Json → Bool
  is_sources (arr nil) = false
  is_sources (arr (cons x xs)) = true
  is_sources _ = false

  abbrev pub is_push : Json → Bool
  is_push d = is_text "push" (item "direction" d)

  -- the checks up to the identity of the machine
  abbrev pub document_checks : Json → List Check
  document_checks d =
      let limit = item "budget" d in
      let sources = list_of (item "sources" d) in
      expect (has_fields d && is_text "velo.transfer.request.v1" (item "schema" d))
        "invalid_request"
      ∷ expect (is_push d || is_text "pull" (item "direction" d)) "invalid_direction"
      ∷ validate_budget l limit
      ∷ expect (is_sources (item "sources" d)) "sources_required"
      ∷ expect (leb (length sources) (amount (item "max_files" limit))) "file_count_exceeded"
      ∷ evidence (item "evidence_context" d)
      ∷ metadata (amount (item "max_metadata_bytes" limit)) (item "sources" d)
          (item "evidence_context" d)
      ∷ sources_from l.unicode (is_push d) [] [] sources
      ∷ side_path l.unicode (not (is_push d)) "invalid_destination_path"
          (item "destination_directory" d)
      ∷ posix l.unicode "invalid_connection_profile" (item "connection_profile" d)
      ∷ object ("vm_uuid" ∷ "boot_identity" ∷ "vm_epoch" ∷ []) "invalid_vm_identity"
          (item "expected_vm_identity" d)
      ∷ limited_text 256 "invalid_vm_identity" (item "vm_uuid" (item "expected_vm_identity" d))
      ∷ limited_text 256 "invalid_vm_identity"
          (item "boot_identity" (item "expected_vm_identity" d))
      ∷ limited_text 256 "invalid_vm_identity" (item "vm_epoch" (item "expected_vm_identity" d))
      ∷ expect (not (is_none (uuid_of (item "vm_uuid" (item "expected_vm_identity" d)))))
          "invalid_vm_identity"
      ∷ []

  abbrev pub is_transfer_id : Json → Bool
  is_transfer_id (str s) = is_id s && not (starts_with (codes "guest-internal-") (codes s))
  is_transfer_id _ = false

  -- the transfer that the document names
  unfoldable pub given_id : Json → Check
  given_id v =
      first (expect (is_transfer_id v) "invalid_transfer_id" ∷ check_relative l.unicode v ∷ [])

  -- the transfer, or the error where one cannot be resumed
  abbrev pub transfer_check : Json → Check
  transfer_check d = elim (get "transfer_id" d) [
    | some v ↦ given_id v
    | none ↦ expect (not (is_true (item "resume" d))) "resume_requires_transfer_id"
  ]

  abbrev is_flag : Option Json → Bool
  is_flag none = true
  is_flag (some (bool b)) = true
  is_flag (some _) = false

  abbrev pub last_checks : Json → List Check
  last_checks d = transfer_check d ∷ expect (is_flag (get "resume" d)) "invalid_resume" ∷ []

  -- `setdefault`
  abbrev pub set_default : String → Json → Json → Json
  set_default k v d = elim (get k d) [ none ↦ set_item k v d | some w ↦ d ]

  abbrev pub normal_uuid : Json → Json
  normal_uuid identity = elim (uuid_of (item "vm_uuid" identity)) [
    | none ↦ identity
    | some t ↦ set_item "vm_uuid" (str t) identity
  ]

  -- what the document is after the checks; `fresh` is `uuid.uuid4().hex`
  unfoldable pub completed : String → Json → Json
  completed fresh d = set_default "resume" (bool false) (
      set_default "transfer_id" (str fresh)
        (set_item "expected_vm_identity" (normal_uuid (item "expected_vm_identity" d)) d))

  -- `_validate_document`
  unfoldable pub validate_document : String → Json → Json ⊎ Fault
  validate_document fresh d =
      checked (first (first (document_checks d) ∷ first (last_checks d) ∷ [])) (completed fresh d)

  -- `_parse`, with `_pairs`, of what `decode` and `json.loads` make of the bytes
  unfoldable pub parse : Parse → Json ⊎ Fault
  parse p =
      if any (λ m. is_repeated (keys m)) p.dicts
      then inr (failing "duplicate_json_key")
      else elim p.value [
        | none ↦ inr (failing "invalid_json")
        | some v ↦ checked (expect (not (is_none (l.canonical_json v))) "invalid_json") v
      ]

  -- `intent` of `load_request`
  unfoldable pub intent : Json → String
  intent d = l.digest_json (without ("transfer_id" ∷ "resume" ∷ []) d)

  -- `HostRequest`, with the document that its bytes are
  pub record HostRequest : Type 0 where
    pub transfer_id : String
    pub resume : Bool
    pub intent_digest : String
    pub request_timeout_seconds : Json
    pub document : Json

  abbrev pub host_request : Json → HostRequest
  host_request d = record {
    transfer_id = text_of (item "transfer_id" d);
    resume = is_true (item "resume" d);
    intent_digest = intent d;
    request_timeout_seconds = item "request_timeout_seconds" (item "budget" d);
    document = d;
  }

  -- `load_request` of a spec's path, with what `_read_spec` does there
  unfoldable pub load_request :
      String → (List ℕ → Parse) → List ℕ ⊎ Fault → Json → HostRequest ⊎ Fault
  load_request fresh loads spec path =
      and_then (checked (posix l.unicode "invalid_spec_path" path) path) (λ _. and_then spec (λ raw.
        and_then (parse (loads raw))
          (λ d. and_then (validate_document fresh d) (λ v. inl (host_request v)))))
