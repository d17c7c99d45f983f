-- ===== src/Request/Facts.antt =====
-- The digests of velo_transfer/request.py, and the requests that it loads.
use mcp_velociraptor.Request.Members.{
  without-set_item, item-set_item_other, without-set_item_other, item-set_item, without-set_default,
}
use mcp_velociraptor.Protocol.Checks.{checked-inversion}
use mcp_velociraptor.Protocol.Faults.{first, item}
use mcp_velociraptor.Request.Guest.{guest_members, guest_checks, request_digest, make_guest_request}
use mcp_velociraptor.Request.{Library}
use mcp_velociraptor.Prelude.{
  sym, ap, ◌∙◌, subst, List, ◌≡◌, String, refl, true, false, [], ◌∷◌, inl,
}
use mcp_velociraptor.Json.{obj, Json, bool, str}
use mcp_velociraptor.Request.Document.{
  normal_uuid, set_default, without, set_item, HostRequest, intent, completed,
}

module _ (l : Library) where
  -- the same document, sent again to resume this transfer
  abbrev pub resumed : String → Json → Json
  resumed i d = set_item "resume" (bool true) (set_item "transfer_id" (str i) d)

  -- A document has the same intent digest when it is sent again with a name for its transfer and with
  -- `resume`, whatever names `uuid4` would give.
  pub intent-resumed :
      (fresh other i : String) (d : Json)
      → intent l (completed l other (resumed i d)) ≡ intent l (completed l fresh d)
  unfolding intent completed
  intent-resumed fresh other i d =
      ap (λ v. l.digest_json v)
        (given other (resumed i d)
          ∙ (ap (λ v. set_item identity (normal_uuid l v) (without names (resumed i d)))
                same_identity
              ∙ (ap (λ v. set_item identity (normal_uuid l (item identity d)) v) same_rest
                  ∙ sym (given fresh d))))
    where
      names : List String
      names = "transfer_id" ∷ "resume" ∷ []

      identity : String
      identity = "expected_vm_identity"

      given :
          (f : String) (v : Json)
          → without names (
              set_default l "resume" (bool false) (
                set_default l "transfer_id"
                  (str f)
                  (set_item identity (normal_uuid l (item identity v)) v)))
            ≡ set_item identity (normal_uuid l (item identity v)) (without names v)
      given f v =
          without-set_default l names "resume" (bool false) _ refl
          ∙ (without-set_default l names "transfer_id" (str f) _ refl
              ∙ without-set_item_other names identity (normal_uuid l (item identity v)) v refl)

      same_identity : item identity (resumed i d) ≡ item identity d
      same_identity =
          item-set_item_other identity "resume" (bool true) (set_item "transfer_id" (str i) d) refl
          ∙ item-set_item_other identity "transfer_id" (str i) d refl

      same_rest : without names (resumed i d) ≡ without names d
      same_rest =
          without-set_item names "resume" (bool true) (set_item "transfer_id" (str i) d) refl
          ∙ without-set_item names "transfer_id" (str i) d refl

  -- Where `make_guest_request` returns, the digest in the request is the `request_digest` of that
  -- request.
  pub make_guest_request-digest :
      (request : HostRequest l) (destination package_identity r : Json)
      → make_guest_request l request destination package_identity ≡ inl r
      → item "request_digest" r ≡ str (request_digest l r)
  unfolding make_guest_request request_digest
  make_guest_request-digest request destination p r h =
      let result = obj (guest_members l request destination p) in
      let (_, e) =
        checked-inversion (first (guest_checks l request.document destination p))
          (set_item "request_digest" (str (request_digest l result)) result) r h in
      subst (λ v. item "request_digest" v ≡ str (request_digest l v)) e
        (item-set_item "request_digest" (str (request_digest l result))
            (guest_members l request destination p)
          ∙ ap (λ v. str (l.digest_json v))
              (sym (
                without-set_item ("request_digest" ∷ []) "request_digest"
                  (str (request_digest l result)) result refl)))
