-- ===== src/Protocol/Rounds.antt =====
-- The loop of `restore` in velo_transfer/protocol.py, on the operations of each course.
use mcp_velociraptor.Protocol.Replay.{fail-ok, prepare-ok, commit-ok, replay-resume}
use mcp_velociraptor.Proc.Handle.{bind_ok}
use mcp_velociraptor.Protocol.Receipts.{validate_publication, validate_prepare}
use mcp_velociraptor.Protocol.Fields.{is_push}
use mcp_velociraptor.Text.{is_id}
use mcp_velociraptor.Protocol.Ends.{st}
use mcp_velociraptor.Proc.{ok, ◌>>=◌, ◌>>◌}
use mcp_velociraptor.Protocol.Snapshot.{finish, resume, replay_saved, op_json}
use mcp_velociraptor.Json.{end, str, member, obj, null, Json}
use mcp_velociraptor.Prelude.{◌∙◌, ◌≡◌, true, none, false, some, Bool, String, Option, refl}
use mcp_velociraptor.Protocol.Course.{
  prepare_result, commit_result, op, ground_state, IsGround, Began, initial, Ground, preparing,
  prepare_broken, based, sent, placed, committing, commit_broken,
}
use mcp_velociraptor.Protocol.Machine.{done, broken}
use mcp_velociraptor.Protocol.Terminal.{
  Terminal, Prefix, Method, Action, Operation, Authorization, prepare, commit, release, completed,
  refused, in_progress,
}

abbrev pub saved : Option Operation → Option Json
saved none = none
saved (some v) = some (op_json v)

abbrev pub has_authorization : Option Authorization → Bool
has_authorization none = false
has_authorization (some a) = true

module _ (digest_json : Json → String) (fresh : Action → String) (auth : Bool) where
  abbrev pub round : Action → Option Operation → Method (Unit {0})
  round a o = replay_saved digest_json (fresh a) a auth (saved o)

  abbrev pub rounds : Terminal → Method (Unit {0})
  rounds s = round prepare s.prepare_op >> (round commit s.commit_op >> round release s.release_op)

module _ (digest_json : Json → String) (fresh : Action → String) (auth : Bool) (b d : Json)
    (p : Prefix) where
  abbrev r : Action → Option Operation → Method (Unit {0})
  r = round digest_json fresh auth

  abbrev start : Terminal
  start = initial digest_json b d p

  pub prepare-pending :
      (i : String) (x : Json)
      → Began digest_json b d p prepare i x start
      → r prepare (some (op digest_json b d p prepare i x)) start
        ≡ ok tt (st digest_json b d p (preparing i x))
  unfolding resume
  prepare-pending i x h =
      replay-resume digest_json b d p (fresh prepare) prepare i x in_progress null auth start h refl
        refl refl refl

  pub prepare-failed :
      (i : String) (x : Json) (code : String)
      → Began digest_json b d p prepare i x start
      → is_id code ≡ true
      → r prepare (some (broken digest_json code (op digest_json b d p prepare i x))) start
        ≡ ok tt (st digest_json b d p (prepare_broken i x code))
  unfolding resume ◌>>=◌
  prepare-failed i x code h u =
      replay-resume digest_json b d p (fresh prepare) prepare i x refused
        (obj (member "error" (str code) end)) auth start h refl refl refl refl
      ∙ fail-ok digest_json b d p prepare i x code (st digest_json b d p (preparing i x)) refl u
          refl refl

  pub prepare-done :
      (i : String) (x q : Json)
      → Began digest_json b d p prepare i x start
      → validate_prepare q b ≡ none
      → r prepare
          (some (
            done digest_json
              (prepare_result digest_json b d p q)
              (op digest_json b d p prepare i x)))
          start
        ≡ ok tt (st digest_json b d p (based (sent i x q)))
  unfolding resume finish ◌>>=◌
  prepare-done i x q h e =
      replay-resume digest_json b d p (fresh prepare) prepare i x completed
        (prepare_result digest_json b d p q) auth start h refl refl refl refl
      ∙ prepare-ok digest_json b d p i x q e

  module _ (k : String) (x q : Json) where
    abbrev g₁ : Terminal
    g₁ = st digest_json b d p (based (sent k x q))

    pub commit-pending :
        (i : String) (y : Json)
        → Began digest_json b d p commit i y g₁
        → r commit (some (op digest_json b d p commit i y)) g₁
          ≡ ok tt (st digest_json b d p (committing k x q i y))
    unfolding resume
    commit-pending i y h =
        replay-resume digest_json b d p (fresh commit) commit i y in_progress null auth g₁ h refl
          refl refl refl

    pub commit-failed :
        (i : String) (y : Json) (code : String)
        → Began digest_json b d p commit i y g₁
        → is_id code ≡ true
        → r commit (some (broken digest_json code (op digest_json b d p commit i y))) g₁
          ≡ ok tt (st digest_json b d p (commit_broken k x q i y code))
    unfolding resume ◌>>=◌
    commit-failed i y code h u =
        replay-resume digest_json b d p (fresh commit) commit i y refused
          (obj (member "error" (str code) end)) auth g₁ h refl refl refl refl
        ∙ fail-ok digest_json b d p commit i y code (st digest_json b d p (committing k x q i y))
            refl u refl refl

    commit-done :
        (i : String) (y v : Json)
        → Began digest_json b d p commit i y g₁
        → is_push b ≡ true
        → validate_publication digest_json v b q d ≡ none
        → r commit
            (some (
              done digest_json
                (commit_result digest_json b d p v)
                (op digest_json b d p commit i y)))
            g₁
          ≡ ok tt (st digest_json b d p (based (placed k x q i y v)))
    unfolding resume finish ◌>>=◌
    commit-done i y v h u e =
        replay-resume digest_json b d p (fresh commit) commit i y completed
          (commit_result digest_json b d p v) auth g₁ h refl refl refl refl
        ∙ commit-ok digest_json b d p k x q i y v u e

  abbrev gs : Ground → Terminal
  gs g = ground_state digest_json b d p g

  -- the rounds up to the ground that the release stands on
  pub ground-rounds :
      (g : Ground) (m : Method (Unit {0}))
      → IsGround digest_json b d p g
      → (r prepare (gs g).prepare_op >> (r commit (gs g).commit_op >> m)) start ≡ m (gs g)
  unfolding ◌>>=◌
  ground-rounds (sent i x q) m h =
      bind_ok (r prepare (gs (sent i x q)).prepare_op) (λ _. m) (prepare-done i x q h.0 h.1)
  ground-rounds (placed i x q j y v) m h =
      bind_ok (r prepare (gs (sent i x q)).prepare_op)
        (λ _. r commit (gs (placed i x q j y v)).commit_op >> m) (prepare-done i x q h.0 h.1)
      ∙ bind_ok (r commit (gs (placed i x q j y v)).commit_op) (λ _. m)
          (commit-done i x q j y v h.2 h.3 h.4)
