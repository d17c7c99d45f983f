-- ===== src/Request/Guest.antt =====
-- `make_guest_request` of velo_transfer/request.py and `request_digest` of
-- velo_transfer/guest_service.py.
use mcp_velociraptor.Json.Same.{same_json}
use mcp_velociraptor.Wire.Validate.{is_digest, is_natural}
use mcp_velociraptor.Protocol.Snapshot.{is_null}
use mcp_velociraptor.Protocol.Fields.{validate_destination}
use mcp_velociraptor.Request.Document.{set_item, without, is_push, HostRequest}
use mcp_velociraptor.Request.{amount, budget_keys, Library}
use mcp_velociraptor.Prelude.{leb, ◌&&◌, not, ◌⊎◌, is_none, String, List, if◌then◌else◌, [], ◌∷◌}
use mcp_velociraptor.Json.{Members, Json, str, obj, end, member}
use mcp_velociraptor.Protocol.Faults.{object, first, expect, Fault, item, Check}
use mcp_velociraptor.Protocol.Receipts.{checked}

module _ (l : Library) where
  -- `request_digest` of a dict
  unfoldable pub request_digest : Json → String
  request_digest request = l.digest_json (without ("request_digest" ∷ []) request)

  abbrev copied : Json → List String → Members
  copied v [] = end
  copied v (k ∷ ks) = member k (item k v) (copied v ks)

  -- `guest_budget`
  abbrev pub guest_budget : Json → Json
  guest_budget document = obj (copied (item "budget" document) budget_keys)

  -- the package of a push
  unfoldable pub package_check : Json → Json → Check
  package_check document v = first (
      object ("size" ∷ "sha256" ∷ "manifest_sha256" ∷ []) "invalid_package_identity" v
      ∷ expect
          (is_natural (item "size" v)
            && leb (amount (item "size" v))
                (amount (item "max_package_bytes" (item "budget" document)))
            && is_digest (item "sha256" v)
            && is_digest (item "manifest_sha256" v))
          "invalid_package_identity"
      ∷ [])

  -- A pull has no package, which is null.
  abbrev pub packages : Json → Json → Check
  packages document v =
      if is_push l document
      then package_check document v
      else expect (is_null v) "invalid_package_identity"

  abbrev package_member : Json → Json → Members
  package_member document v = if is_push l document then member "package" v end else end

  abbrev pub guest_checks : Json → Json → Json → List Check
  guest_checks document destination v =
      validate_destination destination (is_push l document)
      ∷ expect (not (is_none (l.canonical_json destination))) "invalid_destination"
      ∷ expect
          (same_json (item "canonical_path" destination) (item "destination_directory" document))
          "invalid_destination"
      ∷ packages document v
      ∷ []

  -- the request but for its digest
  abbrev pub guest_members : HostRequest l → Json → Json → Members
  guest_members request destination v =
      let d = request.document in
      member "protocol_version" (str "velo.transfer.v1") (
        member "transfer_id" (str request.transfer_id) (
          member "direction" (item "direction" d) (
            member "sources" (item "sources" d) (
              member "expected_destination" destination (
                member "expected_vm_identity" (item "expected_vm_identity" d) (
                  member "evidence_context" (item "evidence_context" d)
                    (member "budget" (guest_budget d) (package_member d v))))))))

  -- `make_guest_request`
  unfoldable pub make_guest_request : HostRequest l → Json → Json → Json ⊎ Fault
  make_guest_request request destination v =
      let result = obj (guest_members request destination v) in
      checked (first (guest_checks request.document destination v))
        (set_item "request_digest" (str (request_digest result)) result)
