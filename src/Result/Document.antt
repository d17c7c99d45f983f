-- ===== src/Result/Document.antt =====
-- The fields of a result, as `validate_result` of velo_transfer/result.py reads them, up to its
-- evidence.
use mcp_velociraptor.Protocol.Fields.{validate_destination}
use mcp_velociraptor.Paths.{check_collisions, starts_with, check_relative}
use mcp_velociraptor.Wire.Validate.{is_str_in}
use mcp_velociraptor.Protocol.Snapshot.{is_null}
use mcp_velociraptor.Text.{is_id, codes}
use mcp_velociraptor.Protocol.Faults.{object, item, first, expect, Check}
use mcp_velociraptor.Result.{
  file, number_of, digest, sure_digest, reference, optional, recode, number, is_code, identity,
  Outside,
}
use mcp_velociraptor.Prelude.{
  length, leb, ◌||◌, ◌&&◌, not, all, map, Option, Bool, ℕ, String, List, if◌then◌else◌, true, false,
  none, some, [], ◌∷◌,
}
use mcp_velociraptor.Json.{is_text, items, Json, bool, str, arr}

-- `_FIELDS`
abbrev pub fields : List String
fields =
    "schema" ∷ "outcome" ∷ "transfer_id" ∷ "request_digest" ∷ "direction" ∷ "channel"
    ∷ "fallback_reason" ∷ "source_vm_identity" ∷ "destination_identity" ∷ "package_sha256"
    ∷ "package_size" ∷ "manifest_sha256" ∷ "resumed_bytes" ∷ "files" ∷ "source_stability" ∷ "phase"
    ∷ "last_phase" ∷ "published_ever" ∷ "destination_verified" ∷ "cleanup"
    ∷ "publication_receipt_sha256" ∷ "warnings" ∷ "evidence_index" ∷ []

-- `_PHASES`
abbrev phases : List String
phases =
    "CREATED" ∷ "PREPARING" ∷ "READY" ∷ "TRANSFERRING" ∷ "VERIFYING" ∷ "PUBLISHED" ∷ "CLEANING"
    ∷ "COMPLETE" ∷ "FAILED" ∷ "CONFLICT" ∷ "CANCELLED" ∷ []

-- `_STABILITY`
abbrev stability : List String
stability =
    "stable_at_required_check" ∷ "changed_after_authorized_release"
    ∷ "changed_before_required_check" ∷ "unknown" ∷ []

-- `_OUTCOMES`
abbrev pub outcomes : List String
outcomes = "complete" ∷ "rejected" ∷ "incomplete" ∷ "conflict" ∷ "cleanup_pending" ∷ []

abbrev is_null_or : (Json → Bool) → Json → Bool
is_null_or test v = is_null v || test v

abbrev is_bool : Json → Bool
is_bool (bool b) = true
is_bool _ = false

abbrev is_transfer_id : Json → Bool
is_transfer_id (str s) = is_id s && not (starts_with (codes "guest-internal-") (codes s))
is_transfer_id _ = false

unfoldable pub transfer_id : Outside → Json → Check
transfer_id o v =
    first (expect (is_transfer_id v) "invalid_result_transfer_id" ∷ check_relative o.unicode v ∷ [])

-- the channel, and the reason that goes with the channel "windows" only
unfoldable pub channel : Json → Json → Check
channel v fallback = first (
    expect (is_null_or (is_str_in ("velo" ∷ "windows" ∷ [])) v) "invalid_result_channel"
    ∷ expect (if is_text "windows" v then is_code fallback else is_null fallback)
        "invalid_result_channel"
    ∷ [])

unfoldable pub source_vm : Outside → Json → Json → Check
source_vm o direction v =
    first (expect (is_text "pull" direction) "invalid_result_vm_identity" ∷ identity o v ∷ [])

unfoldable pub destination : Json → Json → Check
destination direction v = first (
    expect (not (is_null direction)) "invalid_result_destination"
    ∷ recode "invalid_result_destination" (validate_destination v (is_text "push" direction))
    ∷ [])

-- all of the three are null, or none of them is
unfoldable pub packaged : Json → Json → Json → Check
packaged sha256 size manifest =
    if is_null sha256 || is_null size || is_null manifest
    then expect (is_null sha256 && is_null size && is_null manifest) "invalid_result_package"
    else first (sure_digest sha256 ∷ sure_digest manifest ∷ number size ∷ [])

-- The size of a package that is not known is null, which counts as 0.
abbrev resumed : Json → Json → Check
resumed size v =
    first
      (number v ∷ expect (leb (number_of v) (number_of size)) "invalid_result_resumed_bytes" ∷ [])

abbrev pub list_of : Json → List Json
list_of (arr xs) = items xs
list_of _ = []

abbrev pub is_list : Json → Bool
is_list (arr xs) = true
is_list _ = false

abbrev pub path_of : Json → List ℕ
path_of (str s) = codes s
path_of _ = []

-- `names`, where the loop over the files has ended
abbrev pub names : Json → List (List ℕ)
names files = map (λ v. path_of (item "relative_path" v)) (list_of files)

abbrev each : (Json → Check) → List Json → Check
each check [] = none
each check (v ∷ vs) = let rest = each check vs in first (check v ∷ rest ∷ [])

abbrev pub files_checks : Outside → ℕ → Json → List Check
files_checks o max_files v =
    expect (is_list v && leb (length (list_of v)) max_files) "result_file_count_exceeded"
    ∷ each (file o) (list_of v)
    ∷ recode "result_path_collision" (check_collisions o.unicode (names v) [])
    ∷ []

unfoldable pub files : Outside → ℕ → Json → Check
files o max_files v = first (files_checks o max_files v)

-- the two values of the dict, in either order
unfoldable pub cleanup : Json → Check
cleanup v = first (
    object ("host" ∷ "guest" ∷ []) "invalid_result_cleanup" v
    ∷ expect (is_null_or is_bool (item "host" v) && is_null_or is_bool (item "guest" v))
        "invalid_result_cleanup"
    ∷ [])

abbrev differs_from : Json → Json → Bool
differs_from (str s) w = not (is_text s w)
differs_from _ w = true

-- `len(warnings) == len(set(warnings))`, where these are texts
abbrev are_distinct : List Json → Bool
are_distinct [] = true
are_distinct (v ∷ vs) = all (differs_from v) vs && are_distinct vs

unfoldable pub warnings : Json → Check
warnings v =
    expect (is_list v && all is_code (list_of v) && are_distinct (list_of v))
      "invalid_result_warnings"

-- the loop over the evidence, after the roles that were seen
unfoldable pub roles_from : ℕ → List Json → List Json → Check
roles_from max_metadata_bytes seen [] = none
roles_from max_metadata_bytes seen (v ∷ vs) =
    let role = item "role" v in
    let rest = roles_from max_metadata_bytes (role ∷ seen) vs in
    first (
      object ("role" ∷ "reference" ∷ []) "invalid_result_evidence" v
      ∷ expect (is_code role && all (differs_from role) seen) "invalid_result_evidence"
      ∷ reference max_metadata_bytes (item "reference" v)
      ∷ rest
      ∷ [])

unfoldable pub evidence : ℕ → Json → Check
evidence max_metadata_bytes v = first (
    expect (is_list v) "invalid_result_evidence"
    ∷ roles_from max_metadata_bytes [] (list_of v)
    ∷ [])

-- `roles.get(role)`
abbrev role_in : String → List Json → Option Json
role_in role [] = none
role_in role (v ∷ vs) =
    let rest = role_in role vs in
    if is_text role (item "role" v) then some (item "reference" v) else rest

abbrev pub role_of : String → Json → Option Json
role_of role document = role_in role (list_of (item "evidence_index" document))

abbrev pub is_phase : Json → Bool
is_phase v = is_str_in phases v

-- the checks on each field, in the order of `validate_result`
abbrev pub field_checks : Outside → ℕ → ℕ → Json → List Check
field_checks o max_files max_metadata_bytes d =
    let direction = item "direction" d in
    object fields "invalid_result_fields" d
    ∷ expect
        (is_text "velo.transfer.result.v1" (item "schema" d)
          && is_str_in outcomes (item "outcome" d))
        "invalid_result_status"
    ∷ optional (transfer_id o) (item "transfer_id" d)
    ∷ digest (item "request_digest" d)
    ∷ expect
        (is_str_in ("push" ∷ "pull" ∷ []) direction
          || (is_null direction && is_text "rejected" (item "outcome" d)))
        "invalid_result_direction"
    ∷ channel (item "channel" d) (item "fallback_reason" d)
    ∷ optional (source_vm o direction) (item "source_vm_identity" d)
    ∷ optional (destination direction) (item "destination_identity" d)
    ∷ packaged (item "package_sha256" d) (item "package_size" d) (item "manifest_sha256" d)
    ∷ resumed (item "package_size" d) (item "resumed_bytes" d)
    ∷ files o max_files (item "files" d)
    ∷ expect (is_str_in stability (item "source_stability" d)) "invalid_result_stability"
    ∷ expect (is_phase (item "phase" d) && is_null_or is_phase (item "last_phase" d))
        "invalid_result_phase"
    ∷ expect
        (is_null_or is_bool (item "published_ever" d)
          && is_null_or is_bool (item "destination_verified" d))
        "invalid_result_fact"
    ∷ cleanup (item "cleanup" d)
    ∷ digest (item "publication_receipt_sha256" d)
    ∷ warnings (item "warnings" d)
    ∷ evidence max_metadata_bytes (item "evidence_index" d)
    ∷ []

unfoldable pub validate_fields : Outside → ℕ → ℕ → Json → Check
validate_fields o max_files max_metadata_bytes d =
    first (field_checks o max_files max_metadata_bytes d)
