-- ===== src/Protocol/Keep.antt =====
-- Each call of the terminal of velo_transfer/protocol.py, about the course of its state.
use mcp_velociraptor.Text.{same_text}
use text.Mathlib.Text.{◌==◌ as str_eq}
use mcp_velociraptor.Protocol.Receipts.{validate_publication, validate_prepare}
use mcp_velociraptor.Protocol.Fields.{is_push}
use mcp_velociraptor.Protocol.Faults.{item, is_true, object, expect, demand}
use mcp_velociraptor.Proc.{final, pure, gets, modify, ◌>>◌, ◌>>=◌}
use mcp_velociraptor.Protocol.Ends.{idle-release, gs, idle-prepare, idle-commit, st, Kept}
use mcp_velociraptor.Json.{has_keys, end, member, obj, Json}
use mcp_velociraptor.Prelude.{
  List, sym, ◌&&◌, none, ◌≡◌, inr, ap, [], Option-cases, ◌∷◌, some, inl, Bool-cases, String, refl,
}
use mcp_velociraptor.Protocol.Course.{
  Ground, Course, preparing, based, sent, placed, committing, release_begun, release_authorized,
  release_done,
}
use mcp_velociraptor.Protocol.Machine.{
  release_result, authorized, is_authorized, complete_release, authorize_release, pending,
  complete_prepare, complete_commit, complete,
}
use mcp_velociraptor.Protocol.Terminal.{
  released, prepared, Operation, Method, Prefix, prepare, commit, release, published,
}

module _ (digest_json : Json → String) (b d : Json) (p : Prefix) where
  abbrev after_prepare : String → Json → Course → Operation → Method (Unit {0})
  after_prepare i r c _ = do
    demand (validate_prepare r (st digest_json b d p c).binding)
    modify (λ t. record t { prepare_receipt = r; phase = prepared })
    complete digest_json prepare i (obj (member "prepare_receipt" r end))

  abbrev after_commit : String → Json → Course → Operation → Method (Unit {0})
  after_commit i q c _ = do
    let s = st digest_json b d p c
    demand (expect (is_push s.binding) "action_not_allowed")
    demand (validate_publication digest_json q s.binding s.prepare_receipt s.destination)
    modify (λ t. record t { publication = q; phase = published })
    complete digest_json commit i (obj (member "publication_receipt" q end))

  abbrev K : Course → Method (Unit {0}) → Type 0
  K = Kept digest_json b d p

  preparing-done :
      (i : String) (r : Json) (j : String) (x : Json)
      → K (preparing j x) (pending digest_json prepare i >>= after_prepare i r (preparing j x))
  unfolding Kept complete pending ◌>>=◌
  preparing-done i r j x h = elim (Bool-cases (str_eq j i)) [
    | inl t ↦
        rw (t, final)
          (elim (Option-cases (validate_prepare r b)) [
            | inl e ↦ rw e (based (sent j x r), (h, e), rw (t, final) refl)
            | inr (fault, e) ↦ rw e (preparing j x, h, refl)
          ])
    | inr t ↦ rw (t, final) (preparing j x, h, refl)
  ]

  pub complete_prepare-Kept :
      (i : String) (r : Json) (c : Course) → K c (complete_prepare digest_json i r)
  unfolding Kept complete_prepare ◌>>=◌
  complete_prepare-Kept i r c =
      idle-prepare digest_json b d p i (after_prepare i r) (preparing-done i r) c

  committing-done :
      (i : String) (q : Json) (k : String) (x r : Json) (j : String) (y : Json)
      → K
          (committing k x r j y)
          (pending digest_json commit i >>= after_commit i q (committing k x r j y))
  unfolding Kept complete pending ◌>>=◌
  committing-done i q k x r j y h = elim (Bool-cases (str_eq j i)) [
    | inl t ↦
        rw (t, final)
          (elim (Bool-cases (is_push b)) [
            | inl u ↦ rw u (elim (Option-cases (validate_publication digest_json q b r d)) [
              | inl e ↦
                  rw e (based (placed k x r j y q), (h.0.0, h.0.1, h.1, u, e), rw (t, final) refl)
              | inr (fault, e) ↦ rw e (committing k x r j y, h, refl)
            ])
            | inr u ↦ rw u (committing k x r j y, h, refl)
          ])
    | inr t ↦ rw (t, final) (committing k x r j y, h, refl)
  ]

  pub complete_commit-Kept :
      (i : String) (q : Json) (c : Course) → K c (complete_commit digest_json i q)
  unfolding Kept complete_commit ◌>>=◌
  complete_commit-Kept i q c =
      idle-commit digest_json b d p i (after_commit i q) (committing-done i q) c

  abbrev after_authorize : String → Course → Operation → Method (Unit {0})
  after_authorize i c op = do
    authorization ← gets (λ s. s.authorization)
    elim authorization [
      | some a ↦ pure tt
      | none ↦ modify (authorized digest_json i (item "publication_receipt" op.inputs))
    ]

  pub no-authorization : (g : Ground) → (gs digest_json b d p g).authorization ≡ none
  no-authorization (sent i x r) = refl
  no-authorization (placed i x r j y q) = refl

  begun-authorized :
      (i : String) (g : Ground) (j : String) (y : Json)
      → K
          (release_begun g j y)
          (pending digest_json release i >>= after_authorize i (release_begun g j y))
  unfolding Kept pending ◌>>=◌
  begun-authorized i g j y h = elim (Bool-cases (str_eq j i)) [
    | inl t ↦
        rw (t, no-authorization g, final)
          (
            release_authorized g j y,
            h,
            ap
                (λ k.
                  authorized digest_json k (item "publication_receipt" y)
                    (st digest_json b d p (release_begun g j y)))
                (sym (same_text j i t)),
          )
    | inr t ↦ rw (t, final) (release_begun g j y, h, refl)
  ]

  authorized-again :
      (i : String) (g : Ground) (j : String) (y : Json)
      → K
          (release_authorized g j y)
          (pending digest_json release i >>= after_authorize i (release_authorized g j y))
  unfolding Kept pending ◌>>=◌
  authorized-again i g j y h = elim (Bool-cases (str_eq j i)) [
    | inl t ↦ rw (t, final) (release_authorized g j y, h, refl)
    | inr t ↦ rw (t, final) (release_authorized g j y, h, refl)
  ]

  pub authorize_release-Kept : (i : String) (c : Course) → K c (authorize_release digest_json i)
  unfolding authorize_release
  authorize_release-Kept i c =
      idle-release digest_json b d p i (after_authorize i) (begun-authorized i) (authorized-again i)
        c

  abbrev after_release : String → Json → Course → Operation → Method (Unit {0})
  after_release i v c _ = do
    s ← gets (λ s. s)
    demand (expect (is_authorized digest_json i s.authorization) "release_not_authorized")
    demand (object ("temporary_files_removed" ∷ "workers_stopped" ∷ []) "invalid_cleanup" v)
    demand (
        expect (is_true (item "temporary_files_removed" v) && is_true (item "workers_stopped" v))
          "cleanup_incomplete")
    modify (λ t. record t { phase = released })
    complete digest_json release i (release_result digest_json s.publication v)

  begun-released :
      (i : String) (v : Json) (g : Ground) (j : String) (y : Json)
      → K
          (release_begun g j y)
          (pending digest_json release i >>= after_release i v (release_begun g j y))
  unfolding Kept pending ◌>>=◌
  begun-released i v (sent m x r) j y h = elim (Bool-cases (str_eq j i)) [
    | inl t ↦ rw (t, final) (release_begun (sent m x r) j y, h, refl)
    | inr t ↦ rw (t, final) (release_begun (sent m x r) j y, h, refl)
  ]
  begun-released i v (placed m x r k z q) j y h = elim (Bool-cases (str_eq j i)) [
    | inl t ↦ rw (t, final) (release_begun (placed m x r k z q) j y, h, refl)
    | inr t ↦ rw (t, final) (release_begun (placed m x r k z q) j y, h, refl)
  ]

  abbrev cleanup_names : List String
  cleanup_names = "temporary_files_removed" ∷ "workers_stopped" ∷ []

  authorized-released :
      (i : String) (v : Json) (g : Ground) (j : String) (y : Json)
      → K
          (release_authorized g j y)
          (pending digest_json release i >>= after_release i v (release_authorized g j y))
  unfolding Kept complete pending ◌>>=◌
  authorized-released i v g j y h = elim (Bool-cases (str_eq j i)) [
    | inl t ↦
        rw (t, final)
          (rw (t, final)
            (elim (Bool-cases (has_keys cleanup_names v)) [
              | inl u ↦
                  rw u
                    (elim (Bool-cases (
                      is_true (item "temporary_files_removed" v)
                      && is_true (item "workers_stopped" v))) [
                        | inl w ↦
                            rw w
                              (release_done g j y v, (h.0, h.1, rw (u, w) refl), rw (t, final) refl)
                        | inr w ↦ rw w (release_authorized g j y, h, refl)
                      ])
              | inr u ↦ rw u (release_authorized g j y, h, refl)
            ]))
    | inr t ↦ rw (t, final) (release_authorized g j y, h, refl)
  ]

  pub complete_release-Kept :
      (i : String) (v : Json) (c : Course) → K c (complete_release digest_json i v)
  unfolding complete_release
  complete_release-Kept i v c =
      idle-release digest_json b d p i (after_release i v) (begun-released i v)
        (authorized-released i v) c
