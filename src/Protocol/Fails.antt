-- ===== src/Protocol/Fails.antt =====
-- `fail_action` of velo_transfer/protocol.py, about the course of the state of its terminal.
use mcp_velociraptor.Text.{is_id}
use text.Mathlib.Text.{◌==◌ as str_eq}
use mcp_velociraptor.Protocol.Fields.{identifier}
use mcp_velociraptor.Protocol.Faults.{expect, demand}
use mcp_velociraptor.Proc.{final, gets, modify, ◌>>◌, ◌>>=◌}
use mcp_velociraptor.Protocol.Ends.{idle, idle-release, idle-prepare, idle-commit, Kept}
use mcp_velociraptor.Json.{str, Json}
use mcp_velociraptor.Prelude.{is_none, inr, inl, Bool-cases, String, refl}
use mcp_velociraptor.Protocol.Course.{
  release_broken, prepare_broken, commit_broken, Ground, Course, preparing, sent, placed,
  committing, release_begun, release_authorized,
}
use mcp_velociraptor.Protocol.Machine.{phase_after, broken, fail_action, pending}
use mcp_velociraptor.Protocol.Terminal.{
  put, other, Action, Operation, Method, Prefix, prepare, commit, release,
}

module _ (digest_json : Json → String) (b d : Json) (p : Prefix) where
  abbrev K : Course → Method (Unit {0}) → Type 0
  K = Kept digest_json b d p

  abbrev after_fail : Action → String → Course → Operation → Method (Unit {0})
  after_fail a code c op = do
    demand (identifier (str code))
    s ← gets (λ s. s)
    demand (expect (is_none s.authorization) "release_already_authorized")
    modify (put a (broken digest_json code op))
    modify (λ t. record t { phase = phase_after digest_json t.prefix code })

  preparing-failed :
      (i code j : String) (x : Json)
      → K
          (preparing j x)
          (pending digest_json prepare i >>= after_fail prepare code (preparing j x))
  unfolding Kept pending ◌>>=◌
  preparing-failed i code j x h = elim (Bool-cases (str_eq j i)) [
    | inl t ↦
        rw (t, final)
          (elim (Bool-cases (is_id code)) [
            | inl u ↦ rw (u, final) (prepare_broken j x code, (h, u), refl)
            | inr u ↦ rw (u, final) (preparing j x, h, refl)
          ])
    | inr t ↦ rw (t, final) (preparing j x, h, refl)
  ]

  committing-failed :
      (i code : String) (k : String) (x r : Json) (j : String) (y : Json)
      → K
          (committing k x r j y)
          (pending digest_json commit i >>= after_fail commit code (committing k x r j y))
  unfolding Kept pending ◌>>=◌
  committing-failed i code k x r j y h = elim (Bool-cases (str_eq j i)) [
    | inl t ↦
        rw (t, final)
          (elim (Bool-cases (is_id code)) [
            | inl u ↦ rw (u, final) (commit_broken k x r j y code, (h.0, h.1, u), refl)
            | inr u ↦ rw (u, final) (committing k x r j y, h, refl)
          ])
    | inr t ↦ rw (t, final) (committing k x r j y, h, refl)
  ]

  begun-failed :
      (i code : String) (g : Ground) (j : String) (y : Json)
      → K
          (release_begun g j y)
          (pending digest_json release i >>= after_fail release code (release_begun g j y))
  unfolding Kept pending ◌>>=◌
  begun-failed i code (sent m x r) j y h = elim (Bool-cases (str_eq j i)) [
    | inl t ↦
        rw (t, final)
          (elim (Bool-cases (is_id code)) [
            | inl u ↦ rw (u, final) (release_broken (sent m x r) j y code, (h.0, h.1, u), refl)
            | inr u ↦ rw (u, final) (release_begun (sent m x r) j y, h, refl)
          ])
    | inr t ↦ rw (t, final) (release_begun (sent m x r) j y, h, refl)
  ]
  begun-failed i code (placed m x r k z q) j y h = elim (Bool-cases (str_eq j i)) [
    | inl t ↦
        rw (t, final)
          (elim (Bool-cases (is_id code)) [
            | inl u ↦
                rw (u, final) (release_broken (placed m x r k z q) j y code, (h.0, h.1, u), refl)
            | inr u ↦ rw (u, final) (release_begun (placed m x r k z q) j y, h, refl)
          ])
    | inr t ↦ rw (t, final) (release_begun (placed m x r k z q) j y, h, refl)
  ]

  authorized-failed :
      (i code : String) (g : Ground) (j : String) (y : Json)
      → K
          (release_authorized g j y)
          (pending digest_json release i >>= after_fail release code (release_authorized g j y))
  unfolding Kept pending ◌>>=◌
  authorized-failed i code g j y h = elim (Bool-cases (str_eq j i)) [
    | inl t ↦
        rw (t, final)
          (elim (Bool-cases (is_id code)) [
            | inl u ↦ rw (u, final) (release_authorized g j y, h, refl)
            | inr u ↦ rw (u, final) (release_authorized g j y, h, refl)
          ])
    | inr t ↦ rw (t, final) (release_authorized g j y, h, refl)
  ]

  pub fail_action-Kept :
      (a : Action) (i code : String) (c : Course) → K c (fail_action digest_json a i code)
  unfolding Kept fail_action
  fail_action-Kept prepare i code c =
      idle-prepare digest_json b d p i (after_fail prepare code) (preparing-failed i code) c
  fail_action-Kept commit i code c =
      idle-commit digest_json b d p i (after_fail commit code) (committing-failed i code) c
  fail_action-Kept release i code c =
      idle-release digest_json b d p i (after_fail release code) (begun-failed i code)
        (authorized-failed i code) c
  fail_action-Kept (other n) i code c =
      idle digest_json b d p (other n) i c (after_fail (other n) code c) refl
