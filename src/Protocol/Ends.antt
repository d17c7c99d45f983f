-- ===== src/Protocol/Ends.antt =====
-- The calls that end an action of the terminal of velo_transfer/protocol.py, about the course of
-- its state.
use mcp_velociraptor.Proc.Handle.{bind_err}
use mcp_velociraptor.Protocol.Faults.{failing}
use text.Mathlib.Text.{◌==◌ as str_eq}
use mcp_velociraptor.Proc.{err, final, ◌>>=◌}
use mcp_velociraptor.Json.{Json}
use mcp_velociraptor.Prelude.{true, Bool, ap, none, some, false, ◌≡◌, Option, String, refl}
use mcp_velociraptor.Protocol.Course.{
  ground_state, Ground, IsCourse, state_of, HasCourse, Course, preparing, based, sent, placed,
  committing, release_begun, release_authorized, release_broken, release_done,
}
use mcp_velociraptor.Protocol.Machine.{pending_op, pending}
use mcp_velociraptor.Protocol.Terminal.{
  Method, refused, completed, in_progress, Status, op_of, Operation, is_running, Action, Terminal,
  Prefix, prepare, commit, release, other,
}

module _ (digest_json : Json → String) where
  not-pending :
      (status : Status) (b : Bool)
      → elim status [ in_progress ↦ true | _ ↦ false ] ≡ false
      → elim status [ in_progress ↦ b | _ ↦ false ] ≡ false
  not-pending in_progress b h = cc h
  not-pending completed b h = refl
  not-pending refused b h = refl

  pending-op-idle :
      (i : String) (o : Option Operation) (s : Terminal)
      → is_running o ≡ false
      → pending_op digest_json i o s ≡ err (failing "operation_mismatch") s
  unfolding ◌>>=◌
  pending-op-idle i none s h = refl
  pending-op-idle i (some v) s h = rw (not-pending v.status (str_eq v.operation_id i) h) refl

  pub pending-idle :
      (a : Action) (i : String) (s : Terminal)
      → is_running (op_of a s) ≡ false
      → pending digest_json a i s ≡ err (failing "operation_mismatch") s
  unfolding pending ◌>>=◌
  pending-idle a i s h = pending-op-idle i (op_of a s) s h

module _ (digest_json : Json → String) (b d : Json) (p : Prefix) where
  abbrev pub Has : Terminal → Type 0
  Has s = HasCourse digest_json b d p s

  abbrev pub st : Course → Terminal
  st c = state_of digest_json b d p c

  unfoldable pub Kept : Course → Method (Unit {0}) → Type 0
  Kept c m = IsCourse digest_json b d p c → Has (final (m (st c)))

  -- a call whose action does not run
  pub idle :
      (a : Action) (i : String) (c : Course) (f : Operation → Method (Unit {0}))
      → is_running (op_of a (st c)) ≡ false
      → Kept c (pending digest_json a i >>= f)
  unfolding Kept
  idle a i c f e h = (
    c,
    h,
    ap final (bind_err (pending digest_json a i) f (pending-idle digest_json a i (st c) e)),
  )

  abbrev pub gs : Ground → Terminal
  gs g = ground_state digest_json b d p g

  ground-idle : (a : Action) (g : Ground) → is_running (op_of a (gs g)) ≡ false
  ground-idle prepare (sent i x r) = refl
  ground-idle prepare (placed i x r j y q) = refl
  ground-idle commit (sent i x r) = refl
  ground-idle commit (placed i x r j y q) = refl
  ground-idle release (sent i x r) = refl
  ground-idle release (placed i x r j y q) = refl
  ground-idle (other n) (sent i x r) = refl
  ground-idle (other n) (placed i x r j y q) = refl

  -- A call of an action that does not run in a course.
  pub idle-prepare :
      (i : String) (f : Course → Operation → Method (Unit {0}))
      → ((j : String) (x : Json)
          → Kept (preparing j x) (pending digest_json prepare i >>= f (preparing j x)))
      → (c : Course) → Kept c (pending digest_json prepare i >>= f c)
  idle-prepare i f k (preparing j x) = k j x
  idle-prepare i f k (based g) = idle prepare i _ (f _) (ground-idle prepare g)
  idle-prepare i f k (release_begun g j y) = idle prepare i _ (f _) (ground-idle prepare g)
  idle-prepare i f k (release_authorized g j y) = idle prepare i _ (f _) (ground-idle prepare g)
  idle-prepare i f k (release_broken g j y code) = idle prepare i _ (f _) (ground-idle prepare g)
  idle-prepare i f k (release_done g j y v) = idle prepare i _ (f _) (ground-idle prepare g)
  idle-prepare i f k c = idle prepare i c (f c) refl

  pub idle-commit :
      (i : String) (f : Course → Operation → Method (Unit {0}))
      → ((x : String) (y r : Json) (j : String) (z : Json)
          → Kept (committing x y r j z) (pending digest_json commit i >>= f (committing x y r j z)))
      → (c : Course) → Kept c (pending digest_json commit i >>= f c)
  idle-commit i f k (committing x y r j z) = k x y r j z
  idle-commit i f k (based g) = idle commit i _ (f _) (ground-idle commit g)
  idle-commit i f k (release_begun g j y) = idle commit i _ (f _) (ground-idle commit g)
  idle-commit i f k (release_authorized g j y) = idle commit i _ (f _) (ground-idle commit g)
  idle-commit i f k (release_broken g j y code) = idle commit i _ (f _) (ground-idle commit g)
  idle-commit i f k (release_done g j y v) = idle commit i _ (f _) (ground-idle commit g)
  idle-commit i f k c = idle commit i c (f c) refl

  pub idle-release :
      (i : String) (f : Course → Operation → Method (Unit {0}))
      → ((g : Ground) (j : String) (y : Json)
          → Kept (release_begun g j y) (pending digest_json release i >>= f (release_begun g j y)))
      → ((g : Ground) (j : String) (y : Json)
          → Kept
              (release_authorized g j y)
              (pending digest_json release i >>= f (release_authorized g j y)))
      → (c : Course) → Kept c (pending digest_json release i >>= f c)
  idle-release i f k l (release_begun g j y) = k g j y
  idle-release i f k l (release_authorized g j y) = l g j y
  idle-release i f k l (based g) = idle release i _ (f _) (ground-idle release g)
  idle-release i f k l c = idle release i c (f c) refl
