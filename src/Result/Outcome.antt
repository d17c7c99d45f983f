-- ===== src/Result/Outcome.antt =====
-- What the outcome of a result asks of its facts, and the operations of velo_transfer/result.py.
use mcp_velociraptor.Json.Same.{same_json}
use mcp_velociraptor.Protocol.Snapshot.{is_null}
use mcp_velociraptor.Result.Document.{validate_fields, names, role_of}
use mcp_velociraptor.Wire.Validate.{is_str_in}
use mcp_velociraptor.Sizes.{validate_json, Meter, Limits}
use mcp_velociraptor.Protocol.Faults.{failing, expect, item, is_true, first, Fault, Check}
use mcp_velociraptor.Result.{result_path, budget, Outside}
use text.Mathlib.Text.{◌==◌ as str_eq}
use mcp_velociraptor.Prelude.{
  leb, all, ◌||◌, is_none, ◌&&◌, ◌⊎◌, not, length, any, Option, ℕ, Bool, String, List,
  if◌then◌else◌, true, false, none, some, [], ◌∷◌, inl, inr,
}
use mcp_velociraptor.Json.{keys, is_text, Members, Json, bool, str, int, obj, member, end}
use mcp_velociraptor.Proc.{Exit, ok, err}
use mcp_velociraptor.Protocol.Faults.{crash}
use mcp_velociraptor.Protocol.Receipts.{checked}

abbrev pub is_false : Json → Bool
is_false (bool b) = not b
is_false _ = false

-- `published_phases`
abbrev pub published_phases : List String
published_phases = "PUBLISHED" ∷ "CLEANING" ∷ "COMPLETE" ∷ []

abbrev pub receipt_role : String
receipt_role = "publication_receipt"

abbrev pub has_receipt : Json → Bool
has_receipt d = not (is_none (role_of receipt_role d))

abbrev pub has_role : Json → String → Bool
has_role d role = not (is_none (role_of role d))

-- `publication_known`
abbrev pub is_publication_known : Json → Bool
is_publication_known d =
    is_str_in published_phases (item "phase" d)
    || is_str_in published_phases (item "last_phase" d)
    || not (is_null (item "publication_receipt_sha256" d))
    || has_receipt d

-- what a published result has
abbrev pub bindings : List String
bindings =
    "transfer_id" ∷ "request_digest" ∷ "direction" ∷ "channel" ∷ "destination_identity"
    ∷ "package_sha256" ∷ "package_size" ∷ "manifest_sha256" ∷ []

abbrev pub is_given : Json → String → Bool
is_given d k = not (is_null (item k d))

abbrev is_receipt_bound : Json → Bool
is_receipt_bound d = elim (role_of receipt_role d) [
  | none ↦ true
  | some r ↦ same_json (item "sha256" r) (item "publication_receipt_sha256" d)
]

abbrev pub publication_checks : Json → List Check
publication_checks d =
    let published = is_true (item "published_ever" d) in
    expect (is_receipt_bound d) "result_receipt_mismatch"
    ∷ expect (not (is_publication_known d) || published) "result_publication_contradiction"
    ∷ expect (not published || all (is_given d) bindings) "result_publication_binding_missing"
    ∷ []

unfoldable pub publication : Json → Check
publication d = first (publication_checks d)

-- `_REQUIRED_EVIDENCE`
abbrev pub required_evidence : List String
required_evidence =
    receipt_role ∷ "destination_verification" ∷ "host_cleanup" ∷ "guest_cleanup" ∷ []

abbrev pub is_cleaned : String → Json → Bool
is_cleaned side d = is_true (item side (item "cleanup" d))

abbrev pub all_of : List Bool → Bool
all_of tests = all (λ b. b) tests

-- what the outcome "complete" asks
abbrev pub completion : Json → List Bool
completion d =
    is_text "COMPLETE" (item "phase" d)
    ∷ is_true (item "published_ever" d)
    ∷ is_true (item "destination_verified" d)
    ∷ is_cleaned "host" d
    ∷ is_cleaned "guest" d
    ∷ is_str_in ("stable_at_required_check" ∷ "changed_after_authorized_release" ∷ [])
        (item "source_stability" d)
    ∷ all (is_given d) bindings
    ∷ is_given d "publication_receipt_sha256"
    ∷ not (is_text "pull" (item "direction" d) && is_null (item "source_vm_identity" d))
    ∷ all (has_role d) required_evidence
    ∷ []

-- what "rejected" asks
abbrev pub rejection : Json → List Bool
rejection d =
    is_text "FAILED" (item "phase" d)
    ∷ is_false (item "published_ever" d)
    ∷ is_null (item "publication_receipt_sha256" d)
    ∷ not (has_receipt d)
    ∷ []

-- what "cleanup_pending" asks
abbrev pub pending : Json → List Bool
pending d =
    is_str_in ("PUBLISHED" ∷ "CLEANING" ∷ []) (item "phase" d)
    ∷ is_true (item "published_ever" d)
    ∷ is_given d "publication_receipt_sha256"
    ∷ not (is_cleaned "host" d && is_cleaned "guest" d)
    ∷ not (is_false (item "destination_verified" d))
    ∷ []

-- the test of the outcome that the result has, in the order of the code's branches
abbrev pub outcome_check : Json → Check
outcome_check d =
    let o = item "outcome" d in
    if is_text "complete" o
    then expect (all_of (completion d)) "result_completion_unproven"
    else if is_text "rejected" o
    then expect (all_of (rejection d)) "result_outcome_conflict"
    else if is_text "incomplete" o
    then none
    else if is_text "conflict" o
    then expect (is_str_in ("CONFLICT" ∷ "FAILED" ∷ []) (item "phase" d)) "result_outcome_conflict"
    else if is_text "cleanup_pending" o
    then expect (all_of (pending d)) "result_outcome_conflict"
    else none

abbrev pub outcome_checks : Json → List Check
outcome_checks d =
    expect (not (is_text "COMPLETE" (item "phase" d)) || is_text "complete" (item "outcome" d))
      "result_outcome_conflict"
    ∷ outcome_check d
    ∷ []

unfoldable pub outcome : Json → Check
outcome d = first (outcome_checks d)

-- `_OUTCOMES[outcome]`
abbrev pub exit_code : Json → ℕ
exit_code o =
    if is_text "complete" o
    then 0
    else if is_text "rejected" o
    then 2
    else if is_text "incomplete" o
    then 3
    else if is_text "conflict" o
    then 4
    else 5

-- The dicts of a text, in the order in which its parser reads their ends, each as the pairs that it
-- holds, and the text's value, if the parser comes to an end.
pub record Parse : Type 0 where
  pub dicts : List Members
  pub value : Option Json

abbrev pub is_repeated : List String → Bool
is_repeated [] = false
is_repeated (k ∷ ks) = any (λ j. str_eq k j) ks || is_repeated ks

module _ (o : Outside) (max_files max_metadata_bytes : ℕ) where
  abbrev pub limits : Limits
  limits = record {
    max_bytes = max_metadata_bytes;
    max_nodes = 10000;
    max_depth = 32;
    number_text = o.number_text;
  }

  abbrev size_fault : Fault → Fault
  size_fault (failing code) =
      if str_eq code "state_budget_exceeded"
      then failing "result_budget_exceeded"
      else failing "invalid_result_json"
  size_fault crash = failing "invalid_result_json"

  abbrev pub measured : Exit Meter Fault (Unit {0}) → Check
  measured (ok _ _) = none
  measured (err e _) = some (size_fault e)

  unfoldable pub encoded : Option (List ℕ) → Check
  encoded none = some (failing "invalid_result_json")
  encoded (some raw) = expect (leb (length raw) max_metadata_bytes) "result_budget_exceeded"

  abbrev pub result_checks : Json → List Check
  result_checks d =
      budget max_files max_metadata_bytes
      ∷ measured (validate_json limits d (record { used = 0; nodes = 0 }))
      ∷ encoded (o.canonical_json d)
      ∷ validate_fields o max_files max_metadata_bytes d
      ∷ publication d
      ∷ outcome d
      ∷ []

  unfoldable pub check_result : Json → Check
  check_result d = first (result_checks d)

  -- `validate_result`: a copy of the value, or the error
  unfoldable pub validate_result : Json → Json ⊎ Fault
  validate_result d = checked (check_result d) d

  abbrev pub bytes_of : Option (List ℕ) → List ℕ ⊎ Fault
  bytes_of none = inr crash
  bytes_of (some raw) = inl raw

  -- `encode_result`
  unfoldable pub encode_result : Json → List ℕ ⊎ Fault
  encode_result d = elim (validate_result d) [
    | inl v ↦ bytes_of (o.canonical_json v)
    | inr e ↦ inr e
  ]

  abbrev pub parsed : Parse → Json ⊎ Fault
  parsed p =
      if any (λ m. is_repeated (keys m)) p.dicts
      then inr (failing "duplicate_result_key")
      else elim p.value [ none ↦ inr (failing "invalid_result_json") | some v ↦ validate_result v ]

  -- `decode_result` of bytes, with what `decode` and `json.loads` make of them
  unfoldable pub decode_result : (List ℕ → Parse) → List ℕ → Json ⊎ Fault
  decode_result loads raw =
      elim (first (
        budget max_files max_metadata_bytes
        ∷ expect (leb (length raw) max_metadata_bytes) "result_budget_exceeded"
        ∷ [])) [ some e ↦ inr e | none ↦ parsed (loads raw) ]

  -- `result_exit_code`
  unfoldable pub result_exit_code : Json → ℕ ⊎ Fault
  result_exit_code d = elim (validate_result d) [
    | inl v ↦ inl (exit_code (item "outcome" v))
    | inr e ↦ inr e
  ]

  abbrev file_count : Json → ℕ
  file_count v = length (names (item "files" v))

  -- `result_summary`
  unfoldable pub result_summary : Json → Json → Json ⊎ Fault
  result_summary d path = elim (validate_result d) [
    | inr e ↦ inr e
    | inl v ↦ checked (result_path path) (
        obj (
          member "schema" (str "velo.transfer.result.v1") (
            member "transfer_id" (item "transfer_id" v) (
              member "phase" (item "phase" v) (
                member "outcome" (item "outcome" v) (
                  member "exit_code" (int (exit_code (item "outcome" v))) (
                    member "published_ever" (item "published_ever" v) (
                      member "result_path" path
                        (member "file_count" (int (file_count v)) end)))))))))
  ]
