-- ===== src/Protocol/Errors.antt =====
-- The calls of the terminal of velo_transfer/protocol.py that end with an error.
use mcp_velociraptor.Proc.Handle.{bind_ok}
use mcp_velociraptor.Protocol.Machine.{
  done, begin_or_replay, begin_action, fail_action, is_pending, authorize_release, pending_op,
  complete_release, complete_commit, pending, complete_prepare, complete,
}
use mcp_velociraptor.Protocol.Terminal.{
  put, commit, prepare, Authorization, release, op_of, Operation, Method, Action, Terminal,
}
use mcp_velociraptor.Json.{Json}
use mcp_velociraptor.Protocol.Faults.{Fault, demand, Check}
use mcp_velociraptor.Prelude.{
  ◌∙◌, sym, subst, ap, inr, inl, Bool-cases, true, none, Option, ◌≡◌, some, String, refl,
}
use mcp_velociraptor.Protocol.Course.{
  perform, Call, begins, completes_prepare, completes_commit, completes_release, authorizes, fails,
}
use mcp_velociraptor.Proc.{pure, ◌>>◌, modify, gets, ◌>>=◌, ok, err}
use mcp_velociraptor.Proc.Triple.{
  Triple, Triple-bind, Triple-gets, Triple-modify, Triple-pure, Ends,
}

module _ {S : Type 0} {P : S → Type 0} where
  Triple-demand :
      {Q : S → Type 0} (c : Check)
      → ((t : S) → P t → Q t)
      → Triple P (demand c) (λ _ t. P t) (λ _ t. Q t)
  Triple-demand none k = record { at = λ t h. h }
  Triple-demand (some e) k = record { at = λ t h. k t h }

  Triple-read : {E A : Type 0} {X : E → S → Type 0} (f : S → A) → Triple P (gets f) (λ _ t. P t) X
  Triple-read f = record { at = λ t h. h }

module _ (digest_json : Json → String) (s : Terminal) where
  abbrev Same : Terminal → Type 0
  Same t = t ≡ s

  -- An error leaves the terminal as it was.
  abbrev Calm : {A : Type 0} → (Terminal → Type 0) → Method A → Type 0
  Calm P m = Triple P m (λ _ _. Unit {0}) (λ _ t. Same t)

  -- The operation of the action runs, with the identifier.
  abbrev Runs : Action → String → Operation → Terminal → Type 0
  Runs a i v t = (op_of a t ≡ some v) × (is_pending digest_json i v ≡ true)

  abbrev At : Action → String → Operation → Terminal → Type 0
  At a i v t = Runs a i v s × Same t

  pending_op-Runs :
      (a : Action) (i : String) (o : Option Operation)
      → Triple (λ t. (o ≡ op_of a t) × Same t) (pending_op digest_json i o) (At a i) (λ _ t. Same t)
  unfolding ◌>>=◌
  pending_op-Runs a i none = record { at = λ t h. h.1 }
  pending_op-Runs a i (some v) = elim (Bool-cases (is_pending digest_json i v)) [
    | inl e ↦ record { at = λ t (f, h). rw e ((ap (op_of a) (sym h) ∙ sym f, e), h) }
    | inr e ↦ record { at = λ t (f, h). rw e h }
  ]

  pending-Runs :
      (a : Action) (i : String) → Triple Same (pending digest_json a i) (At a i) (λ _ t. Same t)
  unfolding pending
  pending-Runs a i = Triple-bind (Triple-gets (op_of a)) (pending_op-Runs a i)

  pending-ok :
      (a : Action) (i : String) (v : Operation) (t : Terminal)
      → Runs a i v t
      → pending digest_json a i t ≡ ok v t
  unfolding pending ◌>>=◌
  pending-ok a i v t (e, h) = ap (λ o. pending_op digest_json i o t) e ∙ rw h refl

  -- the operation that runs can be completed
  complete-Calm :
      (a : Action) (i : String) (v : Operation) (r : Json)
      → Calm (Runs a i v) (complete digest_json a i r)
  unfolding complete
  complete-Calm a i v r = record {
    at = λ t h.
        subst (Ends {S = Terminal} {E = Fault} (λ _ _. Unit {0}) (λ _ u. Same u))
          (sym (
            bind_ok (pending digest_json a i) (λ op. modify (put a (done digest_json r op)))
              (pending-ok a i v t h)))
          tt;
  }

  -- after the checks the object is written, and the operation is completed
  written-Calm :
      (a : Action) (i : String) (v : Operation) (f : Terminal → Terminal) (r : Json)
      → ((t : Terminal) → op_of a (f t) ≡ op_of a t)
      → Calm (At a i v) (modify f >> complete digest_json a i r)
  written-Calm a i v f r k =
      Triple-bind
        (Triple-modify {Q = λ _ t. Runs a i v t} f
          (λ t h. (k t ∙ (ap (op_of a) h.1 ∙ h.0.0), h.0.1)))
        (λ _. complete-Calm a i v r)

  begin_or_replay-Calm :
      (i : String) (a : Action) (x : Json) (key : String) (t : Terminal) (o : Option Operation)
      → Calm Same (begin_or_replay digest_json i a x key t o)
  begin_or_replay-Calm i a x key t none = Triple-bind (Triple-demand _ (λ _ h. h)) (λ _.
      Triple-bind (Triple-modify {Q = λ _ _. Unit {0}} _ (λ _ _. tt))
        (λ _. Triple-pure _ (λ _ _. tt)))
  begin_or_replay-Calm i a x key t (some v) =
      Triple-bind (Triple-demand _ (λ _ h. h)) (λ _. Triple-pure _ (λ _ _. tt))

  authorization-Calm :
      (o : Option Authorization) (f : Terminal → Terminal) (P : Terminal → Type 0)
      → Calm P (elim o [ some a ↦ pure tt | none ↦ modify f ])
  authorization-Calm none f P = Triple-modify f (λ _ _. tt)
  authorization-Calm (some a) f P = Triple-pure tt (λ _ _. tt)

  pub perform-Calm : (call : Call) → Calm Same (perform digest_json call)
  unfolding complete_prepare complete_commit complete_release authorize_release fail_action
      begin_action
  perform-Calm (begins i a x) =
      Triple-bind
        (Triple-bind (Triple-read (λ t. t))
          (λ q. Triple-bind (Triple-demand _ (λ _ h. h)) (λ _. begin_or_replay-Calm i a x _ q _)))
        (λ _. Triple-pure tt (λ _ _. tt))
  perform-Calm (completes_prepare i r) = Triple-bind (Triple-read (λ t. t)) (λ q.
      Triple-bind (pending-Runs prepare i) (λ v.
        Triple-bind (Triple-demand _ (λ _ h. h.1)) (λ _. written-Calm prepare i v _ _ (λ t. refl))))
  perform-Calm (completes_commit i r) = Triple-bind (Triple-read (λ t. t)) (λ q.
      Triple-bind (pending-Runs commit i) (λ v. Triple-bind (Triple-demand _ (λ _ h. h.1)) (λ _.
        Triple-bind (Triple-demand _ (λ _ h. h.1)) (λ _. written-Calm commit i v _ _ (λ t. refl)))))
  perform-Calm (completes_release i r) = Triple-bind (pending-Runs release i) (λ v.
      Triple-bind (Triple-read _) (λ q. Triple-bind (Triple-demand _ (λ _ h. h.1)) (λ _.
        Triple-bind (Triple-demand _ (λ _ h. h.1)) (λ _.
          Triple-bind (Triple-demand _ (λ _ h. h.1))
            (λ _. written-Calm release i v _ _ (λ t. refl))))))
  perform-Calm (authorizes i) =
      Triple-bind (pending-Runs release i)
        (λ v. Triple-bind (Triple-read _) (λ o. authorization-Calm o _ _))
  perform-Calm (fails a i code) = Triple-bind (pending-Runs a i) (λ v.
      Triple-bind (Triple-demand _ (λ _ h. h.1)) (λ _. Triple-bind (Triple-read _) (λ q.
        Triple-bind (Triple-demand _ (λ _ h. h.1)) (λ _.
          Triple-bind (Triple-modify {Q = λ _ _. Unit {0}} _ (λ _ _. tt))
            (λ _. Triple-modify _ (λ _ _. tt))))))

-- A call of the terminal that raises leaves the terminal as it was.
pub perform-atomic :
    (digest_json : Json → String) (call : Call) (s t : Terminal) (e : Fault)
    → perform digest_json call s ≡ err e t
    → t ≡ s
perform-atomic digest_json call s t e h =
    subst (Ends {S = Terminal} {E = Fault} (λ _ _. Unit {0}) (λ _ u. u ≡ s)) h
      ((perform-Calm digest_json s call).at s refl)
