-- ===== src/Protocol/Recover.antt =====
-- `publish_intent` and `recover_publication` of velo_transfer/protocol.py together.
use mcp_velociraptor.Protocol.Checks.{first-four, checked-inversion}
use mcp_velociraptor.Protocol.Faults.{first, Fault, item}
use mcp_velociraptor.Json.Proper.{same_json_refl, is_proper}
use mcp_velociraptor.Protocol.Receipts.{
  validate_prepare, publication, validate_publication, intent_of, publication_receipt,
  recover_publication, publish_intent,
}
use mcp_velociraptor.Protocol.Fields.{is_push, validate_destination, directory_identity}
use mcp_velociraptor.Json.{end, str, member, obj, Json}
use mcp_velociraptor.Prelude.{[], ◌∷◌, sym, ap, none, ◌⊎◌, subst, refl, true, ◌≡◌, String, inl, inr}

module _ (digest_json : Json → String) where
  HasIntent : Json → Json ⊎ Fault → Json → Type 0
  HasIntent parent o intent =
      (receipt : Json) × (o ≡ inl receipt)
      × (directory_identity parent ≡ none)
      × (obj (
            member "type" (str "publish_intent")
              (member "publication" receipt (member "parent_identity" parent end)))
          ≡ intent)

  intent-HasIntent :
      (parent : Json) (o : Json ⊎ Fault) (intent : Json)
      → intent_of digest_json parent o ≡ inl intent
      → HasIntent parent o intent
  unfolding HasIntent
  intent-HasIntent parent (inl r) intent h =
      let (e, f) = checked-inversion (directory_identity parent) _ intent h in (r, refl, e, f)
  intent-HasIntent parent (inr e) intent h = cc h

  -- a receipt that was made is valid, and has the identity
  made :
      (b q d staging : Json) (name : String) (r : Json)
      → publication_receipt digest_json b q d staging name ≡ inl r
      → (directory_identity staging ≡ none)
        × (validate_publication digest_json r b q d ≡ none)
        × (item "directory_identity" r ≡ staging)
  unfolding publication_receipt
  made b q d staging name r h =
      let w = publication digest_json b q d staging name in
      let checks = first (
        validate_prepare q b
        ∷ validate_destination d (is_push b)
        ∷ directory_identity staging
        ∷ validate_publication digest_json w b q d
        ∷ []) in
      let (c, e) = checked-inversion checks w r h in
      let (identity, valid) =
        first-four (validate_prepare q b) (validate_destination d (is_push b))
          (directory_identity staging) (validate_publication digest_json w b q d) c in
      (
        identity,
        subst (λ v. validate_publication digest_json v b q d ≡ none) e valid,
        ap (item "directory_identity") (sym e),
      )

  -- A publication whose intent was made is recovered from the intent with the verified identities
  -- and the digest of the manifest, where no dict of these repeats a key: it is the publication
  -- receipt itself.
  pub recover-publish :
      (b q d staging parent : Json) (name : String) (intent : Json)
      → is_proper (item "manifest_sha256" b) ≡ true
      → is_proper staging ≡ true
      → is_proper parent ≡ true
      → publish_intent digest_json b q d staging parent name ≡ inl intent
      → recover_publication digest_json intent b q d staging parent (item "manifest_sha256" b)
        ≡ publication_receipt digest_json b q d staging name
  unfolding HasIntent publish_intent recover_publication
  recover-publish b q d staging parent name intent pb ps pp h =
      let (r, e, pf, i) =
        intent-HasIntent parent (publication_receipt digest_json b q d staging name) intent h in
      let (sf, valid, same) = made b q d staging name r e in
      subst
        (λ v.
          recover_publication digest_json v b q d staging parent (item "manifest_sha256" b)
          ≡ publication_receipt digest_json b q d staging name)
        i
        (rw
          (
            valid,
            pf,
            sf,
            same,
            same_json_refl staging ps,
            same_json_refl parent pp,
            same_json_refl (item "manifest_sha256" b) pb,
            e,
          )
          refl)
