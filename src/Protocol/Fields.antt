-- ===== src/Protocol/Fields.antt =====
-- The validators of velo_transfer/protocol.py for bindings, destinations and identities.
use mcp_velociraptor.Json.Same.{same_json}
use mcp_velociraptor.Wire.Validate.{at}
use mcp_velociraptor.Text.{is_id, codes}
use mcp_velociraptor.Wire.Validate.{is_natural, is_digest}
use mcp_velociraptor.Prelude.{
  any, leb, ◌||◌, false, ◌==◌, some, length, if◌then◌else◌, ◌&&◌, not, [], ◌∷◌, none, Option, Bool,
  ℕ, List,
}
use mcp_velociraptor.Json.{
  null, keys, is_number, end, str, member, is_text, is_dict, obj, Members, Json,
}
use mcp_velociraptor.Protocol.Faults.{failing, is_true, item, object, first, expect, Check}
use Prim.Native.String.{String}

abbrev pub binding_fields : List String
binding_fields =
    "protocol_version" ∷ "transfer_id" ∷ "request_digest" ∷ "direction" ∷ "vm_uuid"
    ∷ "boot_identity" ∷ "vm_epoch" ∷ "policy_id" ∷ "package_size" ∷ "package_sha256"
    ∷ "manifest_sha256" ∷ []

abbrev pub is_short_text : ℕ → Json → Bool
is_short_text limit (str s) =
    let cs = codes s in not (length cs == 0) && leb (length cs) limit && not (any (λ c. c == 0) cs)
is_short_text limit _ = false

-- `_text`
abbrev pub text : ℕ → Json → Check
text limit value = expect (is_short_text limit value) "invalid_protocol_value"

-- `_digest`
abbrev pub digest : Json → Check
digest value = expect (is_digest value) "invalid_digest"

abbrev is_identifier : Json → Bool
is_identifier (str s) = is_id s
is_identifier _ = false

-- `_identifier`
abbrev pub identifier : Json → Check
identifier value = expect (is_identifier value) "invalid_receipt_id"

-- The direction is "push"; a valid one is "push" or "pull".
abbrev pub is_push : Json → Bool
is_push binding = is_text "push" (item "direction" binding)

abbrev pub is_pull : Json → Bool
is_pull binding = is_text "pull" (item "direction" binding)

unfoldable pub validate_binding : Json → Check
validate_binding b = first (
    object binding_fields "invalid_binding" b
    ∷ expect (is_text "velo.transfer.v1" (item "protocol_version" b) && (is_push b || is_pull b))
        "invalid_binding"
    ∷ expect (is_identifier (item "transfer_id" b)) "invalid_binding"
    ∷ text 256 (item "vm_uuid" b)
    ∷ text 256 (item "boot_identity" b)
    ∷ text 256 (item "vm_epoch" b)
    ∷ text 256 (item "policy_id" b)
    ∷ expect (is_natural (item "package_size" b)) "invalid_binding"
    ∷ digest (item "request_digest" b)
    ∷ digest (item "package_sha256" b)
    ∷ digest (item "manifest_sha256" b)
    ∷ [])

abbrev is_count : Option ℕ → Json → Bool
is_count none value = is_natural value
is_count (some m) value = is_natural value && is_number m value

-- `worker.get(k)` equals a text that is not empty
abbrev is_worker : Json → Json → Bool
is_worker nonce worker =
    is_dict worker
    && at "job" (is_text "verify_partial") worker
    && not (is_text "" nonce)
    && elim nonce [ str s ↦ at "nonce" (is_text s) worker | _ ↦ false ]

-- `validate_prefix_verification`; `null` stands for no proof
unfoldable pub validate_prefix_verification : Json → Json → ℕ → Json → Option ℕ → Check
validate_prefix_verification null request_digest offset worker chunk_count = none
validate_prefix_verification proof request_digest offset worker chunk_count = first (
    object
      ("schema" ∷ "request_digest" ∷ "worker_nonce" ∷ "verified_offset" ∷ "chunk_count"
        ∷ "ledger_sha256" ∷ "completed" ∷ [])
      "invalid_state" proof
    ∷ digest (item "request_digest" proof)
    ∷ digest (item "ledger_sha256" proof)
    ∷ expect
        (is_text "velo.transfer.prefix-verification.v1" (item "schema" proof)
          && is_true (item "completed" proof)
          && same_json (item "request_digest" proof) request_digest
          && is_natural (item "verified_offset" proof)
          && is_number offset (item "verified_offset" proof)
          && is_count chunk_count (item "chunk_count" proof)
          && is_worker (item "worker_nonce" proof) worker)
        "invalid_state"
    ∷ [])

-- each key and value of the identity
abbrev texts_of : Members → Check
texts_of end = none
texts_of (member k v m) = first (text 128 (str k) ∷ text 256 v ∷ texts_of m ∷ [])

abbrev identity_of : Json → Check
identity_of (obj m) = first (
    expect (not (length (keys m) == 0) && leb (length (keys m)) 16) "invalid_destination"
    ∷ texts_of m
    ∷ [])
identity_of _ = some (failing "invalid_destination")

-- `validate_destination`, for a push or not
unfoldable pub validate_destination : Json → Bool → Check
validate_destination d push = first (
    object ("endpoint" ∷ "identity" ∷ "canonical_path" ∷ []) "invalid_destination" d
    ∷ expect (is_text (if push then "guest" else "host") (item "endpoint" d)) "invalid_destination"
    ∷ text 32767 (item "canonical_path" d)
    ∷ identity_of (item "identity" d)
    ∷ [])

-- `_directory_identity`
unfoldable pub directory_identity : Json → Check
directory_identity v = first (
    object ("device" ∷ "inode" ∷ []) "invalid_directory_identity" v
    ∷ expect (is_natural (item "device" v) && is_natural (item "inode" v))
        "invalid_directory_identity"
    ∷ [])
