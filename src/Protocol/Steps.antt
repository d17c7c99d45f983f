-- ===== src/Protocol/Steps.antt =====
-- The calls of the terminal of velo_transfer/protocol.py, about the course of its state.
use mcp_velociraptor.Protocol.Course.{
  release_done, ground_state, release_authorized, Ground, untouched, preparing, prepare_broken,
  based, sent, placed, committing, commit_broken, release_begun, release_broken,
}
use mcp_velociraptor.Protocol.Terminal.{
  is_running, Phase, prepare, commit, release, other, source, dest, failed, changed,
}
use mcp_velociraptor.Protocol.Course.{
  release_broken, commit_broken, prepare_broken, placed, release_begun, committing, sent, based,
  preparing, op, Began, state_of, begins, IsCourse, IsCall, HasCourse, Course,
}
use mcp_velociraptor.Protocol.Faults.{demand, Check}
use text.Mathlib.Text.{◌==◌ as str_eq}
use mcp_velociraptor.Proc.{final, ◌>>=◌}
use mcp_velociraptor.Protocol.Machine.{
  phase_after, new_op, input_key, begin_or_replay, inputs_check, begin_action,
}
use mcp_velociraptor.Protocol.Terminal.{
  dest, source, release, commit, prepare, other, Prefix, put, any_running, may_begin, op_of,
  Operation, Terminal, Action,
}
use mcp_velociraptor.Json.{Json}
use mcp_velociraptor.Prelude.{
  ◌∙◌, subst, ◌||◌, ap, Bool-cases, some, inr, inl, none, arith, false, ◌⊎◌, true, ◌≡◌, not, Option,
  ◌&&◌, Bool, String, refl,
}

module _ (digest_json : Json → String) (b d : Json) where
  -- What a call of `begin_action` leaves: the state as it was, or the state with a new operation.
  abbrev pub Begins : Action → String → Json → Terminal → Terminal → Type 0
  Begins a i x s t =
      (t ≡ s)
      ⊎ ((inputs_check digest_json s a x ≡ none)
          × (op_of a s ≡ none)
          × (may_begin s.prefix a s.phase ≡ true)
          × (any_running s ≡ false)
          × (t ≡ put a (new_op digest_json i (input_key digest_json s.binding a x) x) s))

  ready_and : (m r : Bool) → (m && not r) ≡ true → (m ≡ true) × (r ≡ false)
  ready_and m r h = (ground arith, ground arith)

  begin-new :
      (a : Action) (i : String) (x : Json) (s : Terminal) (o : Option Operation)
      → inputs_check digest_json s a x ≡ none
      → op_of a s ≡ o
      → Begins a i x s
          (final (begin_or_replay digest_json i a x (input_key digest_json s.binding a x) s o s))
  unfolding ◌>>=◌
  begin-new a i x s (some previous) e f =
      elim (Bool-cases (str_eq previous.input_digest (input_key digest_json s.binding a x))) [
        | inl h ↦ rw h (inl refl)
        | inr h ↦ rw h (inl refl)
      ]
  begin-new a i x s none e f =
      elim (Bool-cases (may_begin s.prefix a s.phase && not (any_running s))) [
        | inl h ↦
            let (m, r) = ready_and (may_begin s.prefix a s.phase) (any_running s) h in
            rw h (inr (e, f, m, r, refl))
        | inr h ↦ rw h (inl refl)
      ]

  begin-checked :
      (a : Action) (i : String) (x : Json) (s : Terminal) (check : Check)
      → inputs_check digest_json s a x ≡ check
      → Begins a i x s (
          final (
            (demand check >>= λ _.
            begin_or_replay digest_json i a x (input_key digest_json s.binding a x) s (op_of a s))
              s))
  unfolding ◌>>=◌
  begin-checked a i x s none e = begin-new a i x s (op_of a s) e refl
  begin-checked a i x s (some fault) e = inl refl

  pub begin-Begins :
      (a : Action) (i : String) (x : Json) (s : Terminal)
      → Begins a i x s (final (begin_action digest_json i a x s))
  unfolding begin_action ◌>>=◌
  begin-Begins a i x s = begin-checked a i x s (inputs_check digest_json s a x) refl

  module _ (p : Prefix) where
    abbrev pub Has : Terminal → Type 0
    Has s = HasCourse digest_json b d p s

    abbrev pub st : Course → Terminal
    st c = state_of digest_json b d p c

  never :
      (p : Prefix) (a : Action) → (may_begin p a failed ≡ false) × (may_begin p a changed ≡ false)
  never source prepare = (refl, refl)
  never source commit = (refl, refl)
  never source release = (refl, refl)
  never source (other n) = (refl, refl)
  never dest prepare = (refl, refl)
  never dest commit = (refl, refl)
  never dest release = (refl, refl)
  never dest (other n) = (refl, refl)

  pub phase-cases :
      (p : Prefix) (code : String)
      → (phase_after digest_json p code ≡ failed) ⊎ (phase_after digest_json p code ≡ changed)
  phase-cases source code = elim (Bool-cases (str_eq code "source_changed")) [
    | inl e ↦ inr (rw e refl)
    | inr e ↦ inl (rw e refl)
  ]
  phase-cases dest code = inl refl

  broken-phase :
      (p : Prefix) (a : Action) (code : String)
      → may_begin p a (phase_after digest_json p code) ≡ true
      → ⊥
  broken-phase p a code h = elim (phase-cases p code) [
    | inl e ↦ cc (h, ap (may_begin p a) e, (never p a).0)
    | inr e ↦ cc (h, ap (may_begin p a) e, (never p a).1)
  ]

  began :
      {p : Prefix} {a : Action} {i : String} {x : Json} {s : Terminal}
      → inputs_check digest_json s a x ≡ none
      → may_begin p a s.phase ≡ true
      → IsCall (begins i a x)
      → Began digest_json b d p a i x s
  began e m (id_fine, is_dict_fine, keywords_fine) = record {
    inputs_fine = e;
    phase_fine = m;
    id_fine = id_fine;
    is_dict_fine = is_dict_fine;
    keywords_fine = keywords_fine;
  }

  ground-prepared :
      (p : Prefix) (g : Ground)
      → (v : Operation) × ((ground_state digest_json b d p g).prepare_op ≡ some v)
  ground-prepared p (sent i x r) = (_, refl)
  ground-prepared p (placed i x r j y q) = (_, refl)

  abbrev gs : Prefix → Ground → Terminal
  gs p g = ground_state digest_json b d p g

  no-other : (p : Prefix) (n : String) (phase : Phase) → may_begin p (other n) phase ≡ false
  no-other source n phase = refl
  no-other dest n phase = refl

  running-last : (x y : Bool) → x || y || true ≡ false → ⊥
  running-last x y h = ground arith

  ground-prefix : (p : Prefix) (g : Ground) → (gs p g).prefix ≡ p
  ground-prefix p (sent i x r) = refl
  ground-prefix p (placed i x r j y q) = refl

  same-prefix : (p : Prefix) (c : Course) → (st p c).prefix ≡ p
  same-prefix p (based g) = ground-prefix p g
  same-prefix p (release_begun g k z) = ground-prefix p g
  same-prefix p (release_authorized g k z) = ground-prefix p g
  same-prefix p (release_broken g k z code) = ground-prefix p g
  same-prefix p (release_done g k z v) = ground-prefix p g
  same-prefix p _ = refl

  pub ground-binding : (p : Prefix) (g : Ground) → (gs p g).binding ≡ b
  ground-binding p (sent i x r) = refl
  ground-binding p (placed i x r j y q) = refl

  pub same-binding : (p : Prefix) (c : Course) → (st p c).binding ≡ b
  same-binding p (based g) = ground-binding p g
  same-binding p (release_begun g k z) = ground-binding p g
  same-binding p (release_authorized g k z) = ground-binding p g
  same-binding p (release_broken g k z code) = ground-binding p g
  same-binding p (release_done g k z v) = ground-binding p g
  same-binding p _ = refl

  -- An action that may begin gives the next course.
  new-course :
      (p : Prefix) (a : Action) (i : String) (x : Json) (c : Course)
      → IsCourse digest_json b d p c
      → IsCall (begins i a x)
      → inputs_check digest_json (st p c) a x ≡ none
      → op_of a (st p c) ≡ none
      → may_begin p a (st p c).phase ≡ true
      → any_running (st p c) ≡ false
      → Has p (put a (op digest_json b d p a i x) (st p c))
  new-course p prepare i x untouched h call e o m r = (preparing i x, began e m call, refl)
  new-course dest commit j y (based (sent i x q)) h call e o m r =
      (committing i x q j y, (h, began e m call), refl)
  new-course source release j y (based (sent i x q)) h call e o m r =
      (release_begun (sent i x q) j y, (h, began e m call), refl)
  new-course dest release j y (based (placed i x q k z w)) h call e o m r =
      (release_begun (placed i x q k z w) j y, (h, began e m call), refl)
  new-course p commit j y (prepare_broken i x code) h call e o m r =
      absurd (broken-phase p commit code m)
  new-course p release j y (prepare_broken i x code) h call e o m r =
      absurd (broken-phase p release code m)
  new-course p release j y (commit_broken i x q k z code) h call e o m r =
      absurd (broken-phase p release code m)
  new-course p commit j y (release_broken (sent i x q) k z code) h call e o m r =
      absurd (broken-phase p commit code m)
  new-course p prepare j y (based g) h call e o m r = cc (o, (ground-prepared p g).1)
  new-course p prepare j y (release_begun g k z) h call e o m r = cc (o, (ground-prepared p g).1)
  new-course p prepare j y (release_authorized g k z) h call e o m r =
      cc (o, (ground-prepared p g).1)
  new-course p prepare j y (release_broken g k z code) h call e o m r =
      cc (o, (ground-prepared p g).1)
  new-course p prepare j y (release_done g k z v) h call e o m r = cc (o, (ground-prepared p g).1)
  new-course p commit j y (release_begun g k z) h call e o m r =
      absurd (running-last (is_running (gs p g).prepare_op) (is_running (gs p g).commit_op) r)
  new-course p commit j y (release_authorized g k z) h call e o m r =
      absurd (running-last (is_running (gs p g).prepare_op) (is_running (gs p g).commit_op) r)
  new-course source commit j y (release_done g k z v) h call e o m r = cc m
  new-course dest commit j y (release_done g k z v) h call e o m r = cc m
  new-course p (other n) j y c h call e o m r = cc (m, no-other p n (st p c).phase)
  new-course p _ j y _ h call e o m r = cc (o, m, r)

  pub begins-HasCourse :
      (p : Prefix) (a : Action) (i : String) (x : Json) (c : Course)
      → IsCourse digest_json b d p c
      → IsCall (begins i a x)
      → Begins a i x (st p c) (final (begin_action digest_json i a x (st p c)))
      → Has p (final (begin_action digest_json i a x (st p c)))
  begins-HasCourse p a i x c h call (inl e) = (c, h, e)
  begins-HasCourse p a i x c h call (inr (e, o, m, r, f)) =
      let (c', h', g) =
        new-course p a i x c h call e o
          (subst (λ q. may_begin q a (st p c).phase ≡ true) (same-prefix p c) m) r in
      (
        c',
        h',
        f
            ∙ (ap (λ v. put a (new_op digest_json i (input_key digest_json v a x) x) (st p c))
                  (same-binding p c)
                ∙ g),
      )
