-- ===== src/Protocol/Release.antt =====
-- The last round of `restore` in velo_transfer/protocol.py, and the loop as a whole.
use mcp_velociraptor.Protocol.Replay.{release-ok, fail-ok, authorize-ok, replay-resume}
use mcp_velociraptor.Proc.Handle.{bind_ok}
use mcp_velociraptor.Protocol.Ends.{st}
use mcp_velociraptor.Protocol.Rounds.{
  commit-failed, commit-pending, prepare-done, ground-rounds, prepare-failed, prepare-pending,
  rounds, round,
}
use mcp_velociraptor.Text.{is_id}
use mcp_velociraptor.Protocol.Faults.{item, expect, first}
use mcp_velociraptor.Proc.{ok, ◌>>=◌}
use mcp_velociraptor.Protocol.Snapshot.{status_text, finish, resume}
use mcp_velociraptor.Json.{end, member, obj, null, str, Json}
use mcp_velociraptor.Prelude.{◌∙◌, none, [], ◌≡◌, ◌∷◌, some, false, true, Bool, String, refl}
use mcp_velociraptor.Protocol.Course.{
  op, initial, ground_state, cleanup_check, IsCourse, Began, Ground, Course, untouched, preparing,
  prepare_broken, based, sent, placed, committing, commit_broken, release_begun, release_authorized,
  release_broken, release_done,
}
use mcp_velociraptor.Protocol.Machine.{authorize_release, release_result, done, broken}
use mcp_velociraptor.Protocol.Terminal.{
  Terminal, Status, Prefix, Action, prepare, commit, release, completed, refused, in_progress,
}

module _ (digest_json : Json → String) (fresh : Action → String) (b d : Json) (p : Prefix) where
  abbrev gs : Ground → Terminal
  gs g = ground_state digest_json b d p g

  release-resume :
      (g : Ground) (i : String) (y : Json) (status : Status) (result : Json) (auth : Bool)
      → Began digest_json b d p release i y (gs g)
      → round digest_json fresh auth release
          (some (record (op digest_json b d p release i y) { status = status; result = result }))
          (gs g)
        ≡ resume digest_json release i
            (str (status_text status))
            auth
            result
            (st digest_json b d p (release_begun g i y))
  release-resume (sent j x q) i y status result auth h =
      replay-resume digest_json b d p (fresh release) release i y status result auth
        (gs (sent j x q)) h refl refl refl refl
  release-resume (placed j x q k z v) i y status result auth h =
      replay-resume digest_json b d p (fresh release) release i y status result auth
        (gs (placed j x q k z v)) h refl refl refl refl

  release-pending :
      (g : Ground) (i : String) (y : Json)
      → Began digest_json b d p release i y (gs g)
      → round digest_json fresh false release (some (op digest_json b d p release i y)) (gs g)
        ≡ ok tt (st digest_json b d p (release_begun g i y))
  unfolding resume
  release-pending g i y h = release-resume g i y in_progress null false h

  release-going :
      (g : Ground) (i : String) (y : Json)
      → Began digest_json b d p release i y (gs g)
      → round digest_json fresh true release (some (op digest_json b d p release i y)) (gs g)
        ≡ ok tt (st digest_json b d p (release_authorized g i y))
  unfolding resume
  release-going g i y h =
      release-resume g i y in_progress null true h ∙ authorize-ok digest_json b d p g i y

  release-failed :
      (g : Ground) (i : String) (y : Json) (code : String)
      → Began digest_json b d p release i y (gs g)
      → is_id code ≡ true
      → round digest_json fresh false release
          (some (broken digest_json code (op digest_json b d p release i y)))
          (gs g)
        ≡ ok tt (st digest_json b d p (release_broken g i y code))
  unfolding resume ◌>>=◌
  release-failed (sent j x q) i y code h u =
      release-resume (sent j x q) i y refused (obj (member "error" (str code) end)) false h
      ∙ fail-ok digest_json b d p release i y code
          (st digest_json b d p (release_begun (sent j x q) i y)) refl u refl refl
  release-failed (placed j x q k z v) i y code h u =
      release-resume (placed j x q k z v) i y refused (obj (member "error" (str code) end)) false h
      ∙ fail-ok digest_json b d p release i y code
          (st digest_json b d p (release_begun (placed j x q k z v) i y)) refl u refl refl

  checks-split :
      (x y : Bool) (m n : String)
      → first (expect x m ∷ expect y n ∷ []) ≡ none
      → (x ≡ true) × (y ≡ true)
  checks-split true true m n h = (refl, refl)
  checks-split true false m n h = cc h
  checks-split false y m n h = cc h

  release-finished :
      (g : Ground) (i : String) (y v : Json)
      → Began digest_json b d p release i y (gs g)
      → cleanup_check digest_json b d p v ≡ none
      → round digest_json fresh true release
          (some (
            done digest_json
              (release_result digest_json (item "publication_receipt" y) v)
              (op digest_json b d p release i y)))
          (gs g)
        ≡ ok tt (st digest_json b d p (release_done g i y v))
  unfolding resume finish ◌>>=◌
  release-finished g i y v h c =
      let (u, w) = checks-split _ _ _ _ c in
      release-resume g i y completed (release_result digest_json (item "publication_receipt" y) v)
        true h
      ∙ (bind_ok (authorize_release digest_json i) _ (authorize-ok digest_json b d p g i y)
          ∙ release-ok digest_json b d p g i y v u w)

  -- whether the snapshot of a course has an authorization
  abbrev pub flag : Course → Bool
  flag (release_authorized g i y) = true
  flag (release_done g i y v) = true
  flag _ = false

  pub rounds-ok :
      (c : Course)
      → IsCourse digest_json b d p c
      → rounds digest_json fresh (flag c) (st digest_json b d p c) (initial digest_json b d p)
        ≡ ok tt (st digest_json b d p c)
  unfolding ◌>>=◌
  rounds-ok untouched h = refl
  rounds-ok (preparing i x) h =
      bind_ok (round digest_json fresh false prepare (some (op digest_json b d p prepare i x))) _
        (prepare-pending digest_json fresh false b d p i x h)
  rounds-ok (prepare_broken i x code) h =
      bind_ok
        (round digest_json fresh false prepare
          (some (broken digest_json code (op digest_json b d p prepare i x))))
        _ (prepare-failed digest_json fresh false b d p i x code h.0 h.1)
  rounds-ok (based g) h = ground-rounds digest_json fresh false b d p g _ h ∙ ground-idle g
    where
      ground-idle :
          (g : Ground)
          → round digest_json fresh false release (gs g).release_op (gs g) ≡ ok tt (gs g)
      ground-idle (sent i x q) = refl
      ground-idle (placed i x q j y v) = refl
  rounds-ok (committing i x q j y) h =
      bind_ok (round digest_json fresh false prepare (gs (sent i x q)).prepare_op) _
        (prepare-done digest_json fresh false b d p i x q h.0.0 h.0.1)
      ∙ bind_ok (round digest_json fresh false commit (some (op digest_json b d p commit j y))) _
          (commit-pending digest_json fresh false b d p i x q j y h.1)
  rounds-ok (commit_broken i x q j y code) h =
      bind_ok (round digest_json fresh false prepare (gs (sent i x q)).prepare_op) _
        (prepare-done digest_json fresh false b d p i x q h.0.0 h.0.1)
      ∙ bind_ok
          (round digest_json fresh false commit
            (some (broken digest_json code (op digest_json b d p commit j y))))
          _ (commit-failed digest_json fresh false b d p i x q j y code h.1 h.2)
  rounds-ok (release_begun g i y) h =
      ground-rounds digest_json fresh false b d p g _ h.0 ∙ release-pending g i y h.1
  rounds-ok (release_authorized g i y) h =
      ground-rounds digest_json fresh true b d p g _ h.0 ∙ release-going g i y h.1
  rounds-ok (release_broken g i y code) h =
      ground-rounds digest_json fresh false b d p g _ h.0 ∙ release-failed g i y code h.1 h.2
  rounds-ok (release_done g i y v) h =
      ground-rounds digest_json fresh true b d p g _ h.0 ∙ release-finished g i y v h.1 h.2
