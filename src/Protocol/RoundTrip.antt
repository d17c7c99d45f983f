-- ===== src/Protocol/RoundTrip.antt =====
-- `restore` and `snapshot` of velo_transfer/protocol.py together.
use mcp_velociraptor.Protocol.Steps.{same-binding}
use mcp_velociraptor.Protocol.Release.{rounds-ok, flag}
use mcp_velociraptor.Wire.Frame.{same_bytes, same_bytes_iff}
use mcp_velociraptor.Protocol.Replay.{demand_ok}
use mcp_velociraptor.Json.Same.{same_json}
use mcp_velociraptor.Protocol.Faults.{item, expect, demand}
use mcp_velociraptor.Proc.Handle.{bind_ok}
use mcp_velociraptor.Protocol.Rounds.{round, saved, rounds}
use mcp_velociraptor.Proc.{◌>>◌, ok, ◌>>=◌}
use mcp_velociraptor.Protocol.Ends.{st}
use mcp_velociraptor.Protocol.Fields.{is_push, validate_destination, validate_binding}
use mcp_velociraptor.Protocol.Snapshot.{
  authorization_json, is_null, invalid, replay_saved, operations_json, snapshot, restore,
  replay_all, keys_within,
}
use mcp_velociraptor.Json.{is_text, get, Json}
use mcp_velociraptor.Prelude.{
  ◌&&◌, ◌∙◌, some, ap, true, none, ◌≡◌, not, Bool, [], ◌∷◌, ℕ, String, Option, List, refl,
}
use mcp_velociraptor.Protocol.Course.{
  ground_state, Ground, initial, IsCourse, Course, untouched, preparing, prepare_broken, based,
  sent, placed, committing, commit_broken, release_begun, release_authorized, release_broken,
  release_done,
}
use mcp_velociraptor.Protocol.Terminal.{
  Authorization, prefix_of, open_terminal, Prefix, Operation, Action, Terminal, prepare, commit,
  release,
}

-- What the three rounds read of a snapshot are the three operations.
get-prepare :
    (s : Terminal) (x y z : Option Operation)
    → get "prepare" (operations_json (record s { prepare_op = x; commit_op = y; release_op = z }))
      ≡ saved x
get-prepare s none none none = refl
get-prepare s none none (some z) = refl
get-prepare s none (some y) none = refl
get-prepare s none (some y) (some z) = refl
get-prepare s (some x) none none = refl
get-prepare s (some x) none (some z) = refl
get-prepare s (some x) (some y) none = refl
get-prepare s (some x) (some y) (some z) = refl

get-commit :
    (s : Terminal) (x y z : Option Operation)
    → get "commit" (operations_json (record s { prepare_op = x; commit_op = y; release_op = z }))
      ≡ saved y
get-commit s none none none = refl
get-commit s none none (some z) = refl
get-commit s none (some y) none = refl
get-commit s none (some y) (some z) = refl
get-commit s (some x) none none = refl
get-commit s (some x) none (some z) = refl
get-commit s (some x) (some y) none = refl
get-commit s (some x) (some y) (some z) = refl

get-release :
    (s : Terminal) (x y z : Option Operation)
    → get "release" (operations_json (record s { prepare_op = x; commit_op = y; release_op = z }))
      ≡ saved z
get-release s none none none = refl
get-release s none none (some z) = refl
get-release s none (some y) none = refl
get-release s none (some y) (some z) = refl
get-release s (some x) none none = refl
get-release s (some x) none (some z) = refl
get-release s (some x) (some y) none = refl
get-release s (some x) (some y) (some z) = refl

keys_within-three :
    (s : Terminal) (x y z : Option Operation)
    → keys_within
        ("prepare" ∷ "commit" ∷ "release" ∷ [])
        (operations_json (record s { prepare_op = x; commit_op = y; release_op = z }))
      ≡ true
keys_within-three s none none none = refl
keys_within-three s none none (some z) = refl
keys_within-three s none (some y) none = refl
keys_within-three s none (some y) (some z) = refl
keys_within-three s (some x) none none = refl
keys_within-three s (some x) none (some z) = refl
keys_within-three s (some x) (some y) none = refl
keys_within-three s (some x) (some y) (some z) = refl

module _ (digest_json : Json → String) (fresh : Action → String) where
  replay_all-rounds :
      (auth : Bool) (s t : Terminal)
      → replay_all digest_json fresh auth (operations_json s) t ≡ rounds digest_json fresh auth s t
  unfolding replay_all
  replay_all-rounds auth s t =
      ap
        (λ o.
          (replay_saved digest_json (fresh prepare) prepare auth o
              >> (replay_saved digest_json (fresh commit) commit auth
                    (get "commit" (operations_json s))
                  >> replay_saved digest_json (fresh release) release auth
                      (get "release" (operations_json s))))
            t)
        (get-prepare s s.prepare_op s.commit_op s.release_op)
      ∙ (ap
            (λ o.
              (round digest_json fresh auth prepare s.prepare_op
                  >> (replay_saved digest_json (fresh commit) commit auth o
                      >> replay_saved digest_json (fresh release) release auth
                          (get "release" (operations_json s))))
                t)
            (get-commit s s.prepare_op s.commit_op s.release_op)
          ∙ ap
              (λ o.
                (round digest_json fresh auth prepare s.prepare_op
                    >> (round digest_json fresh auth commit s.commit_op
                        >> replay_saved digest_json (fresh release) release auth o))
                  t)
              (get-release s s.prepare_op s.commit_op s.release_op))

module _ (digest_json : Json → String) (canonical_json : Json → List ℕ) (fresh : Action → String)
    (b d : Json) where
  abbrev pub p : Prefix
  p = prefix_of b

  abbrev pub s_of : Course → Terminal
  s_of c = st digest_json b d p c

  -- what the constructor has checked, and what equality on its arguments gives
  pub record IsOpened : Type 0 where
    pub binding_fine : validate_binding b ≡ none
    pub destination_fine : validate_destination d (is_push b) ≡ none
    pub binding_same : same_json b b ≡ true
    pub destination_same : same_json d d ≡ true

  open-ok : IsOpened → (t : Terminal) → open_terminal b d t ≡ ok tt (initial digest_json b d p)
  unfolding open_terminal ◌>>=◌
  open-ok h t =
      bind_ok (demand (validate_binding b)) _ (demand_ok (validate_binding b) t h.binding_fine)
      ∙ bind_ok (demand (validate_destination d (is_push b))) _
          (demand_ok (validate_destination d (is_push b)) t h.destination_fine)

  ground-destination : (g : Ground) → (ground_state digest_json b d p g).destination ≡ d
  ground-destination (sent i x r) = refl
  ground-destination (placed i x r j y q) = refl

  same-destination : (c : Course) → (s_of c).destination ≡ d
  same-destination (based g) = ground-destination g
  same-destination (release_begun g k z) = ground-destination g
  same-destination (release_authorized g k z) = ground-destination g
  same-destination (release_broken g k z code) = ground-destination g
  same-destination (release_done g k z v) = ground-destination g
  same-destination _ = refl

  ground-flag : (g : Ground) → (ground_state digest_json b d p g).authorization ≡ none
  ground-flag (sent i x r) = refl
  ground-flag (placed i x r j y q) = refl

  abbrev present : Option Authorization → Bool
  present a = not (is_null (authorization_json a))

  authorization-flag :
      (c : Course) → present (s_of c).authorization ≡ flag digest_json fresh b d p c
  authorization-flag (based g) = ap present (ground-flag g)
  authorization-flag (release_begun g i y) = ap present (ground-flag g)
  authorization-flag (release_broken g i y code) = ap present (ground-flag g)
  authorization-flag (release_authorized g i y) = refl
  authorization-flag (release_done g i y v) = refl
  authorization-flag untouched = refl
  authorization-flag (preparing i x) = refl
  authorization-flag (prepare_broken i x code) = refl
  authorization-flag (committing i x r j y) = refl
  authorization-flag (commit_broken i x r j y code) = refl

  abbrev guard : Json → Bool
  guard saved =
      is_text "velo.transfer.guest_terminal.v1" (item "schema" saved)
      && same_json (item "binding" saved) b
      && same_json (item "destination" saved) d
      && keys_within ("prepare" ∷ "commit" ∷ "release" ∷ []) (item "operations" saved)

  guard-snapshot : (c : Course) → IsOpened → guard (snapshot (s_of c)) ≡ true
  unfolding snapshot
  guard-snapshot c o =
      rw
        (
          ap (λ v. same_json v b) (same-binding digest_json b d p c) ∙ o.binding_same,
          ap (λ v. same_json v d) (same-destination c) ∙ o.destination_same,
          keys_within-three (s_of c) (s_of c).prepare_op (s_of c).commit_op (s_of c).release_op,
        )
        refl

  replayed :
      (c : Course)
      → IsCourse digest_json b d p c
      → replay_all digest_json fresh
          (present (s_of c).authorization)
          (operations_json (s_of c))
          (initial digest_json b d p)
        ≡ ok tt (s_of c)
  replayed c h =
      ap
        (λ v. replay_all digest_json fresh v (operations_json (s_of c)) (initial digest_json b d p))
        (authorization-flag c)
      ∙ (replay_all-rounds digest_json fresh (flag digest_json fresh b d p c) (s_of c)
            (initial digest_json b d p)
          ∙ rounds-ok digest_json fresh b d p c h)

  same-text :
      (s : Json) (t : Terminal)
      → demand (expect (same_bytes (canonical_json s) (canonical_json s)) invalid) t ≡ ok tt t
  same-text s t = rw ((same_bytes_iff (canonical_json s) (canonical_json s)).1 refl) refl

  -- A course is restored from its snapshot.
  pub restore-course :
      (c : Course) (t : Terminal)
      → IsOpened
      → IsCourse digest_json b d p c
      → restore digest_json canonical_json fresh (snapshot (s_of c)) b d t ≡ ok tt (s_of c)
  unfolding restore snapshot ◌>>=◌
  restore-course c t o h =
      bind_ok (open_terminal b d) _ (open-ok o t)
      ∙ (bind_ok (demand (expect (guard (snapshot (s_of c))) invalid)) _ (
            demand_ok (expect (guard (snapshot (s_of c))) invalid) (initial digest_json b d p)
              (ap (λ v. expect v invalid) (guard-snapshot c o)))
          ∙ (bind_ok
                (replay_all digest_json fresh (present (s_of c).authorization)
                  (operations_json (s_of c)))
                _ (replayed c h)
              ∙ same-text (snapshot (s_of c)) (s_of c)))
