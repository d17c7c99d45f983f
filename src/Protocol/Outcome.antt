-- ===== src/Protocol/Outcome.antt =====
-- What a history of the terminal of velo_transfer/protocol.py has led to.
use mcp_velociraptor.Json.Same.{same_json}
use mcp_velociraptor.Protocol.Steps.{phase-cases}
use mcp_velociraptor.Protocol.Checks.{first-fourth}
use mcp_velociraptor.Protocol.History.{opened-HasCourse}
use mcp_velociraptor.Proc.{ok}
use mcp_velociraptor.Protocol.Faults.{expect, object, item}
use mcp_velociraptor.Protocol.Receipts.{validate_publication, validate_prepare}
use mcp_velociraptor.Protocol.Fields.{is_push}
use mcp_velociraptor.Json.{Json}
use mcp_velociraptor.Prelude.{
  ◌||◌, not, [], ◌∷◌, ◌∙◌, ap, sym, subst, some, none, All, ◌≡◌, List, String, refl, inl, inr,
}
use mcp_velociraptor.Protocol.Course.{
  history, IsCall, state_of, ground_state, IsGround, IsCourse, Call, Ground, Course, untouched,
  preparing, prepare_broken, based, sent, placed, committing, commit_broken, release_begun,
  release_authorized, release_broken, release_done,
}
use mcp_velociraptor.Protocol.Machine.{phase_after, inputs_check}
use mcp_velociraptor.Protocol.Terminal.{
  Authorization, completed, open_terminal, Operation, prefix_of, Terminal, Prefix, release,
  released,
}

module _ (digest_json : Json → String) where
  -- The evidence of a terminal that has released its package.
  pub record IsReleased (b d : Json) (s : Terminal) : Type 0 where
    pub prepare_valid : validate_prepare s.prepare_receipt b ≡ none
    pub publication_valid :
        validate_publication digest_json s.publication b s.prepare_receipt d ≡ none
    pub op_done : (v : Operation) × (s.release_op ≡ some v) × (v.status ≡ completed)
    pub receipt_bound :
        (a : Authorization) × (s.authorization ≡ some a)
        × (a.receipt_sha256 ≡ digest_json s.publication)

  module _ (b d : Json) where
    abbrev p : Prefix
    p = prefix_of b

    abbrev gs : Ground → Terminal
    gs g = ground_state digest_json b d p g

    abbrev s_of : Course → Terminal
    s_of c = state_of digest_json b d p c

    -- the inputs of a release hold a valid receipt
    release-inputs :
        (s : Terminal) (x : Json)
        → inputs_check digest_json s release x ≡ none
        → validate_publication digest_json
            (item "publication_receipt" x)
            s.binding
            s.prepare_receipt
            s.destination
          ≡ none
    unfolding inputs_check
    release-inputs s x h =
        first-fourth
          (object ("prepare_receipt" ∷ "publication_receipt" ∷ []) "invalid_action_input" x)
          (validate_prepare (item "prepare_receipt" x) s.binding)
          (expect (same_json (item "prepare_receipt" x) s.prepare_receipt)
            "receipt_binding_mismatch")
          (validate_publication digest_json (item "publication_receipt" x) s.binding
            s.prepare_receipt s.destination)
          (expect
            (not (is_push s.binding) || same_json (item "publication_receipt" x) s.publication)
            "receipt_binding_mismatch")
          h

    ground-prepare :
        (g : Ground)
        → IsGround digest_json b d p g
        → validate_prepare (gs g).prepare_receipt b ≡ none
    ground-prepare (sent i x r) h = h.1
    ground-prepare (placed i x r j y q) h = h.1

    ground-publication :
        (g : Ground) (x : Json)
        → inputs_check digest_json (gs g) release x ≡ none
        → validate_publication digest_json (item "publication_receipt" x) b (gs g).prepare_receipt d
          ≡ none
    ground-publication (sent i y r) x h = release-inputs (gs (sent i y r)) x h
    ground-publication (placed i y r j z q) x h = release-inputs (gs (placed i y r j z q)) x h

    ground-phase : (g : Ground) → (gs g).phase ≡ released → ⊥
    ground-phase (sent i x r) h = cc h
    ground-phase (placed i x r j y q) h = cc h

    phase_after-failed : (code : String) → phase_after digest_json p code ≡ released → ⊥
    phase_after-failed code h = elim (phase-cases digest_json b d p code) [
      | inl e ↦ cc (e, h)
      | inr e ↦ cc (e, h)
    ]

    course-IsReleased :
        (c : Course)
        → IsCourse digest_json b d p c
        → (s_of c).phase ≡ released
        → IsReleased b d (s_of c)
    course-IsReleased (release_done g i x v) (h, e, _) q = record {
      prepare_valid = ground-prepare g h;
      publication_valid = ground-publication g x e.inputs_fine;
      op_done = (_, refl, refl);
      receipt_bound = (_, refl, refl);
    }
    course-IsReleased (based g) h q = absurd (ground-phase g q)
    course-IsReleased (release_begun g i x) h q = absurd (ground-phase g q)
    course-IsReleased (prepare_broken i x code) h q = absurd (phase_after-failed code q)
    course-IsReleased (commit_broken i x r j y code) h q = absurd (phase_after-failed code q)
    course-IsReleased (release_broken g i x code) h q = absurd (phase_after-failed code q)
    course-IsReleased untouched h q = cc q
    course-IsReleased (preparing i x) h q = cc q
    course-IsReleased (committing i x r j y) h q = cc q
    course-IsReleased (release_authorized g i x) h q = cc q

  -- A terminal that is released after a history of calls has a valid preparation and a valid
  -- publication of its package, its release is done, and its authorization has the digest of that
  -- publication.
  pub released-IsReleased :
      (b d : Json) (calls : List Call) (s₀ s : Terminal)
      → All IsCall calls
      → open_terminal b d s₀ ≡ ok tt s
      → (history digest_json calls s).phase ≡ released
      → IsReleased b d (history digest_json calls s)
  released-IsReleased b d calls s₀ s ks o q =
      let (c, h, e) = opened-HasCourse digest_json b d calls s₀ s ks o in
      subst (IsReleased b d) (sym e) (course-IsReleased b d c h (ap (λ t. t.phase) (sym e) ∙ q))
