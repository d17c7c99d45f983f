-- ===== src/Protocol/Final.antt =====
-- The release of the terminal of velo_transfer/protocol.py, once it is authorized.
use mcp_velociraptor.Protocol.History.{opened-HasCourse, history-HasCourse}
use mcp_velociraptor.Proc.{ok, pure, modify, final}
use mcp_velociraptor.Protocol.Faults.{demand, Fault, Check}
use mcp_velociraptor.Json.{Json}
use mcp_velociraptor.Proc.Triple.{Keeps-final, Triple, Keeps, Triple-bind, Triple-gets}
use mcp_velociraptor.Prelude.{
  ◌∙◌, ap, sym, subst, [], none, some, ◌≡◌, ◌∷◌, All, Option, List, String,
}
use mcp_velociraptor.Proc.Keeps.{Keeps-modify, Keeps-pure, Keeps-gets, Keeps-bind}
use mcp_velociraptor.Protocol.Course.{
  perform, IsCall, state_of, ground_state, history, Ground, Course, Call, untouched, preparing,
  prepare_broken, based, sent, placed, committing, commit_broken, release_begun, release_authorized,
  release_broken, release_done, begins, completes_prepare, completes_commit, completes_release,
  authorizes, fails,
}
use mcp_velociraptor.Protocol.Machine.{
  begin_action, fail_action, authorize_release, pending_op, complete_release, begin_or_replay,
  complete_commit, pending, complete_prepare, complete,
}
use mcp_velociraptor.Protocol.Terminal.{
  prefix_of, open_terminal, put, Operation, Terminal, Action, Prefix, Authorization, Phase, prepare,
  commit, release, other, releasing, released,
}

module _ (digest_json : Json → String) (a : Authorization) where
  abbrev HasAuth : Terminal → Type 0
  HasAuth t = t.authorization ≡ some a

  Keeps-demand : (c : Check) → Keeps HasAuth (demand c)
  Keeps-demand none = record { at = λ t h. h }
  Keeps-demand (some e) = record { at = λ t h. h }

  put-auth : (x : Action) (v : Operation) (t : Terminal) → HasAuth t → HasAuth (put x v t)
  put-auth prepare v t h = h
  put-auth commit v t h = h
  put-auth release v t h = h
  put-auth (other n) v t h = h

  Keeps-put : (x : Action) (v : Operation) → Keeps {E = Fault} HasAuth (modify (put x v))
  Keeps-put x v = record { at = λ t h. put-auth x v t h }

  Keeps-pending_op :
      (i : String) (o : Option Operation) → Keeps HasAuth (pending_op digest_json i o)
  Keeps-pending_op i none = record { at = λ t h. h }
  Keeps-pending_op i (some v) = Keeps-bind _ _ (Keeps-demand _) (λ _. Keeps-pure v)

  Keeps-pending : (x : Action) (i : String) → Keeps HasAuth (pending digest_json x i)
  unfolding pending
  Keeps-pending x i = Keeps-bind _ _ (Keeps-gets _) (Keeps-pending_op i)

  Keeps-complete : (x : Action) (i : String) (r : Json) → Keeps HasAuth (complete digest_json x i r)
  unfolding complete
  Keeps-complete x i r = Keeps-bind _ _ (Keeps-pending x i) (λ v. Keeps-put x _)

  Keeps-begin_or_replay :
      (i : String) (x : Action) (y : Json) (key : String) (t : Terminal) (o : Option Operation)
      → Keeps HasAuth (begin_or_replay digest_json i x y key t o)
  Keeps-begin_or_replay i x y key t none =
      Keeps-bind _ _ (Keeps-demand _) (λ _. Keeps-bind _ _ (Keeps-put x _) (λ _. Keeps-pure _))
  Keeps-begin_or_replay i x y key t (some v) = Keeps-bind _ _ (Keeps-demand _) (λ _. Keeps-pure v)

  -- an authorization that is there is not made again
  authorizing :
      (f : Terminal → Terminal) (o : Option Authorization)
      → Triple {S = Terminal} {E = Fault} {A = Unit {0}}
          (λ t. (o ≡ t.authorization) × HasAuth t)
          (elim o [ some x ↦ pure tt | none ↦ modify f ])
          (λ _ t. HasAuth t)
          (λ _ t. HasAuth t)
  authorizing f none = record { at = λ t (e, h). cc (e, h) }
  authorizing f (some x) = record { at = λ t (e, h). h }

  perform-Keeps : (call : Call) → Keeps HasAuth (perform digest_json call)
  unfolding complete_prepare complete_commit complete_release authorize_release fail_action
      begin_action
  perform-Keeps (begins i x y) =
      Keeps-bind _ _
        (Keeps-bind _ _ (Keeps-gets _)
          (λ t. Keeps-bind _ _ (Keeps-demand _) (λ _. Keeps-begin_or_replay i x y _ t _)))
        (λ _. Keeps-pure tt)
  perform-Keeps (completes_prepare i r) = Keeps-bind _ _ (Keeps-gets _) (λ t.
      Keeps-bind _ _ (Keeps-pending prepare i) (λ _.
        Keeps-bind _ _ (Keeps-demand _)
          (λ _. Keeps-bind _ _ (Keeps-modify _ (λ u h. h)) (λ _. Keeps-complete prepare i _))))
  perform-Keeps (completes_commit i r) = Keeps-bind _ _ (Keeps-gets _) (λ t.
      Keeps-bind _ _ (Keeps-pending commit i) (λ _. Keeps-bind _ _ (Keeps-demand _) (λ _.
        Keeps-bind _ _ (Keeps-demand _)
          (λ _. Keeps-bind _ _ (Keeps-modify _ (λ u h. h)) (λ _. Keeps-complete commit i _)))))
  perform-Keeps (completes_release i r) = Keeps-bind _ _ (Keeps-pending release i) (λ _.
      Keeps-bind _ _ (Keeps-gets _) (λ t. Keeps-bind _ _ (Keeps-demand _) (λ _.
        Keeps-bind _ _ (Keeps-demand _) (λ _.
          Keeps-bind _ _ (Keeps-demand _)
            (λ _. Keeps-bind _ _ (Keeps-modify _ (λ u h. h)) (λ _. Keeps-complete release i _))))))
  perform-Keeps (authorizes i) =
      Triple-bind (Keeps-pending release i)
        (λ v. Triple-bind (Triple-gets _) (λ o. authorizing _ o))
  perform-Keeps (fails x i code) = Keeps-bind _ _ (Keeps-pending x i) (λ v.
      Keeps-bind _ _ (Keeps-demand _) (λ _. Keeps-bind _ _ (Keeps-gets _) (λ t.
        Keeps-bind _ _ (Keeps-demand _)
          (λ _. Keeps-bind _ _ (Keeps-put x _) (λ _. Keeps-modify _ (λ u h. h))))))

  history-auth :
      (calls : List Call) (s : Terminal) → HasAuth s → HasAuth (history digest_json calls s)
  unfolding history
  history-auth [] s h = h
  history-auth (call ∷ calls) s h =
      history-auth calls (final (perform digest_json call s)) (Keeps-final (perform-Keeps call) s h)

-- on the way out, or out
abbrev pub IsLeaving : Phase → Type 0
IsLeaving releasing = Unit {0}
IsLeaving released = Unit {0}
IsLeaving _ = ⊥

module _ (digest_json : Json → String) (b d : Json) (p : Prefix) where
  ground-auth :
      (g : Ground) (a : Authorization)
      → (ground_state digest_json b d p g).authorization ≡ some a
      → ⊥
  ground-auth (sent i x r) a h = cc h
  ground-auth (placed i x r j y q) a h = cc h

  course-IsLeaving :
      (c : Course) (a : Authorization)
      → (state_of digest_json b d p c).authorization ≡ some a
      → IsLeaving (state_of digest_json b d p c).phase
  course-IsLeaving (release_authorized g i x) a h = tt
  course-IsLeaving (release_done g i x v) a h = tt
  course-IsLeaving (based g) a h = absurd (ground-auth g a h)
  course-IsLeaving (release_begun g i x) a h = absurd (ground-auth g a h)
  course-IsLeaving (release_broken g i x code) a h = absurd (ground-auth g a h)
  course-IsLeaving untouched a h = cc h
  course-IsLeaving (preparing i x) a h = cc h
  course-IsLeaving (prepare_broken i x code) a h = cc h
  course-IsLeaving (committing i x r j y) a h = cc h
  course-IsLeaving (commit_broken i x r j y code) a h = cc h

module _ (digest_json : Json → String) where
  -- Once the release is authorized, no later call takes the authorization back or changes it, and
  -- the phase stays RELEASING or RELEASED: no call makes it fail.
  pub release-irreversible :
      (b d : Json) (calls later : List Call) (s₀ s : Terminal) (a : Authorization)
      → All IsCall calls
      → All IsCall later
      → open_terminal b d s₀ ≡ ok tt s
      → (history digest_json calls s).authorization ≡ some a
      → ((history digest_json later (history digest_json calls s)).authorization ≡ some a)
        × IsLeaving (history digest_json later (history digest_json calls s)).phase
  release-irreversible b d calls later s₀ s a ks ls o h =
      let t = history digest_json calls s in
      let k = history-auth digest_json a later t h in
      let (c, _, e) =
        history-HasCourse digest_json b d (prefix_of b) later t ls
          (opened-HasCourse digest_json b d calls s₀ s ks o) in
      (
        k,
        subst (λ u. IsLeaving u.phase) (sym e)
            (course-IsLeaving digest_json b d (prefix_of b) c a
              (ap (λ u. u.authorization) (sym e) ∙ k)),
      )
