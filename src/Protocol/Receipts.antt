-- ===== src/Protocol/Receipts.antt =====
-- The receipts of velo_transfer/protocol.py: their validators and makers, and the recovery of a
-- publication.
use mcp_velociraptor.Protocol.Fields.{
  identifier, digest, validate_destination, validate_binding, is_push, directory_identity,
}
use mcp_velociraptor.Json.Same.{same_json}
use mcp_velociraptor.Prelude.{true, some, inr, inl, ◌&&◌, [], ◌⊎◌, ◌∷◌, none, Bool}
use mcp_velociraptor.Json.{end, bool, str, member, is_text, obj, Json}
use mcp_velociraptor.Protocol.Faults.{is_true, item, object, Fault, first, expect, Check}
use Prim.Native.String.{String}

unfoldable pub validate_prepare : Json → Json → Check
validate_prepare receipt binding = first (
    validate_binding binding
    ∷ object ("type" ∷ "binding" ∷ "prepare_id" ∷ "identity_digest" ∷ "prepared" ∷ [])
        "invalid_receipt" receipt
    ∷ validate_binding (item "binding" receipt)
    ∷ expect
        (is_text "prepare" (item "type" receipt)
          && same_json (item "binding" receipt) binding
          && is_true (item "prepared" receipt))
        "receipt_binding_mismatch"
    ∷ identifier (item "prepare_id" receipt)
    ∷ digest (item "identity_digest" receipt)
    ∷ [])

-- a receipt that was checked, or the error of its check
abbrev pub checked : Check → Json → Json ⊎ Fault
checked none receipt = inl receipt
checked (some e) receipt = inr e

-- `prepare_receipt`; the identifier is the given one or a new one
unfoldable pub prepare_receipt : Json → Json → String → Json ⊎ Fault
prepare_receipt binding identity_digest prepare_id =
    let result = obj (
      member "type" (str "prepare") (
        member "binding" binding (
          member "prepare_id" (str prepare_id)
            (member "identity_digest" identity_digest (member "prepared" (bool true) end))))) in
    checked
      (first
        (validate_binding binding ∷ digest identity_digest ∷ validate_prepare result binding ∷ []))
      result

-- `receipt_digest` is `digest_json`: the SHA-256 of the canonical text.
module _ (digest_json : Json → String) where
  abbrev is_digest_of : Json → Json → Bool
  is_digest_of value receipt = is_text (digest_json receipt) value

  unfoldable pub source_validation_receipt : Json → Json → Json → Json ⊎ Fault
  source_validation_receipt binding prepare identity_digest =
      checked
        (first (
          validate_prepare prepare binding
          ∷ expect (is_push binding) "action_not_allowed"
          ∷ digest identity_digest
          ∷ []))
        (obj (
          member "type" (str "source_validation") (
            member "binding" binding (
              member "prepare_receipt_sha256" (str (digest_json prepare))
                (member "identity_digest" identity_digest end)))))

  unfoldable pub validate_source_validation : Json → Json → Json → Check
  validate_source_validation receipt binding prepare = first (
      validate_prepare prepare binding
      ∷ object ("type" ∷ "binding" ∷ "prepare_receipt_sha256" ∷ "identity_digest" ∷ [])
          "invalid_receipt" receipt
      ∷ validate_binding (item "binding" receipt)
      ∷ expect
          (is_push binding
            && is_text "source_validation" (item "type" receipt)
            && same_json (item "binding" receipt) binding
            && is_digest_of (item "prepare_receipt_sha256" receipt) prepare)
          "receipt_binding_mismatch"
      ∷ digest (item "identity_digest" receipt)
      ∷ [])

  unfoldable pub validate_publication : Json → Json → Json → Json → Check
  validate_publication receipt binding prepare destination = first (
      validate_prepare prepare binding
      ∷ validate_destination destination (is_push binding)
      ∷ object
          ("type" ∷ "binding" ∷ "prepare_receipt_sha256" ∷ "destination" ∷ "manifest_sha256"
            ∷ "directory_identity" ∷ "publication_id" ∷ [])
          "invalid_receipt" receipt
      ∷ validate_binding (item "binding" receipt)
      ∷ validate_destination (item "destination" receipt) (is_push binding)
      ∷ expect
          (is_text "publication" (item "type" receipt)
            && same_json (item "binding" receipt) binding
            && is_digest_of (item "prepare_receipt_sha256" receipt) prepare
            && same_json (item "destination" receipt) destination
            && same_json (item "manifest_sha256" receipt) (item "manifest_sha256" binding))
          "receipt_binding_mismatch"
      ∷ directory_identity (item "directory_identity" receipt)
      ∷ identifier (item "publication_id" receipt)
      ∷ [])

  abbrev pub publication : Json → Json → Json → Json → String → Json
  publication binding prepare destination identity publication_id = obj (
      member "type" (str "publication") (
        member "binding" binding (
          member "prepare_receipt_sha256" (str (digest_json prepare)) (
            member "destination" destination (
              member "manifest_sha256" (item "manifest_sha256" binding) (
                member "directory_identity" identity
                  (member "publication_id" (str publication_id) end)))))))

  unfoldable pub publication_receipt : Json → Json → Json → Json → String → Json ⊎ Fault
  publication_receipt binding prepare destination identity publication_id =
      let result = publication binding prepare destination identity publication_id in
      checked
        (first (
          validate_prepare prepare binding
          ∷ validate_destination destination (is_push binding)
          ∷ directory_identity identity
          ∷ validate_publication result binding prepare destination
          ∷ []))
        result

  abbrev pub intent_of : Json → Json ⊎ Fault → Json ⊎ Fault
  intent_of parent_identity (inr e) = inr e
  intent_of parent_identity (inl receipt) = checked (directory_identity parent_identity) (
      obj (
        member "type" (str "publish_intent")
          (member "publication" receipt (member "parent_identity" parent_identity end))))

  unfoldable pub publish_intent : Json → Json → Json → Json → Json → String → Json ⊎ Fault
  publish_intent binding prepare destination staging_identity parent_identity publication_id =
      intent_of parent_identity
        (publication_receipt binding prepare destination staging_identity publication_id)

  -- `recover_publication`, with the identities and the digest that were verified
  unfoldable pub recover_publication : Json → Json → Json → Json → Json → Json → Json → Json ⊎ Fault
  recover_publication intent binding prepare destination identity parent_identity manifest =
      checked
        (first (
          object ("type" ∷ "publication" ∷ "parent_identity" ∷ []) "invalid_publish_intent" intent
          ∷ validate_publication (item "publication" intent) binding prepare destination
          ∷ directory_identity (item "parent_identity" intent)
          ∷ directory_identity identity
          ∷ directory_identity parent_identity
          ∷ expect
              (is_text "publish_intent" (item "type" intent)
                && same_json (item "directory_identity" (item "publication" intent)) identity
                && same_json (item "parent_identity" intent) parent_identity
                && same_json (item "manifest_sha256" binding) manifest)
              "publication_recovery_conflict"
          ∷ []))
        (item "publication" intent)
