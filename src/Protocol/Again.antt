-- ===== src/Protocol/Again.antt =====
-- `begin_action` of velo_transfer/protocol.py, called a second time.
use mcp_velociraptor.Text.{same_text_refl}
use mcp_velociraptor.Protocol.Checks.{expect-true, ok-value, demand-inversion}
use mcp_velociraptor.Proc.Handle.{bind_ok}
use text.Mathlib.Text.{◌==◌ as str_eq}
use mcp_velociraptor.Protocol.Faults.{expect, demand, Check}
use mcp_velociraptor.Json.{Json}
use mcp_velociraptor.Prelude.{
  inr, not, ◌&&◌, sym, subst, ◌∙◌, ap, inl, ◌⊎◌, true, some, none, Option, ◌≡◌, String, refl,
}
use mcp_velociraptor.Protocol.Machine.{
  new_op, begin_or_replay, input_key, inputs_check, begin_action,
}
use mcp_velociraptor.Protocol.Terminal.{
  any_running, may_begin, op_of, put, Terminal, Operation, Action, prepare, commit, release, other,
}
use mcp_velociraptor.Proc.{modify, pure, ◌>>◌, ◌>>=◌, ok}

module _ (digest_json : Json → String) where
  abbrev key : Terminal → Action → Json → String
  key s a x = input_key digest_json s.binding a x

  -- how the action has begun: it had an operation, or it has got one
  HasBegun : String → Action → Json → Operation → Terminal → Terminal → Type 0
  HasBegun i a x v s t =
      (inputs_check digest_json s a x ≡ none)
      × (((op_of a s ≡ some v)
            × (str_eq v.input_digest (input_key digest_json s.binding a x) ≡ true)
            × (t ≡ s))
          ⊎ ((v ≡ new_op digest_json i (input_key digest_json s.binding a x) x) × (t ≡ put a v s)))

  begun-cases :
      (i : String) (a : Action) (x : Json) (v : Operation) (s t : Terminal) (c : Check)
      (o : Option Operation)
      → inputs_check digest_json s a x ≡ c
      → op_of a s ≡ o
      → (demand c >> begin_or_replay digest_json i a x (input_key digest_json s.binding a x) s o) s
        ≡ ok v t
      → HasBegun i a x v s t
  unfolding HasBegun ◌>>=◌
  begun-cases i a x v s t (some e) o f g h = cc h
  begun-cases i a x v s t none (some w) f g h =
      let (e, k) =
        demand-inversion (expect (str_eq w.input_digest (key s a x)) "action_conflict") (pure w) s t
          v h in
      let (p, q) = ok-value k in
      (
        f,
        inl (
          g ∙ ap some p,
          subst (λ u. str_eq u.input_digest (key s a x) ≡ true) p (expect-true _ _ e),
          sym q,
        ),
      )
  begun-cases i a x v s t none none f g h =
      let m =
        modify (put a (new_op digest_json i (key s a x) x))
        >> pure (new_op digest_json i (key s a x) x) in
      let (e, k) =
        demand-inversion
          (expect (may_begin s.prefix a s.phase && not (any_running s))
            "action_precondition_failed")
          m s t v h in
      let (p, q) = ok-value k in (f, inr (sym p, sym q ∙ ap (λ u. put a u s) p))

  begin-HasBegun :
      (i : String) (a : Action) (x : Json) (v : Operation) (s t : Terminal)
      → begin_action digest_json i a x s ≡ ok v t
      → HasBegun i a x v s t
  unfolding begin_action ◌>>=◌
  begin-HasBegun i a x v s t h =
      begun-cases i a x v s t (inputs_check digest_json s a x) (op_of a s) refl refl h

  inputs-put :
      (a : Action) (x : Json) (v : Operation) (s : Terminal)
      → inputs_check digest_json (put a v s) a x ≡ inputs_check digest_json s a x
  unfolding inputs_check
  inputs-put prepare x v s = refl
  inputs-put commit x v s = refl
  inputs-put release x v s = refl
  inputs-put (other n) x v s = refl

  op-put :
      (a : Action) (x : Json) (v : Operation) (s : Terminal)
      → inputs_check digest_json s a x ≡ none
      → (op_of a (put a v s) ≡ some v) × ((put a v s).binding ≡ s.binding)
  unfolding inputs_check
  op-put prepare x v s h = (refl, refl)
  op-put commit x v s h = (refl, refl)
  op-put release x v s h = (refl, refl)
  op-put (other n) x v s h = cc h

  replayed :
      (j : String) (a : Action) (x : Json) (v : Operation) (s : Terminal)
      → inputs_check digest_json s a x ≡ none
      → op_of a s ≡ some v
      → str_eq v.input_digest (input_key digest_json s.binding a x) ≡ true
      → begin_action digest_json j a x s ≡ ok v s
  unfolding begin_action ◌>>=◌
  replayed j a x v s e f g =
      bind_ok (demand (inputs_check digest_json s a x))
        (λ _. begin_or_replay digest_json j a x (key s a x) s (op_of a s)) (ap (λ c. demand c s) e)
      ∙ (ap (λ o. begin_or_replay digest_json j a x (key s a x) s o s) f ∙ rw g refl)

  begun-again :
      (i j : String) (a : Action) (x : Json) (v : Operation) (s t : Terminal)
      → HasBegun i a x v s t
      → begin_action digest_json j a x t ≡ ok v t
  unfolding HasBegun
  begun-again i j a x v s t (e, inl (f, g, q)) =
      subst (λ u. begin_action digest_json j a x u ≡ ok v u) (sym q) (replayed j a x v s e f g)
  begun-again i j a x v s t (e, inr (p, q)) =
      let (f, b) = op-put a x v s e in
      subst (λ u. begin_action digest_json j a x u ≡ ok v u) (sym q)
        (replayed j a x v (put a v s) (inputs-put a x v s ∙ e) f (
          ap (λ u. str_eq u.input_digest (key (put a v s) a x)) p
          ∙ (ap (λ u. str_eq (key s a x) (input_key digest_json u a x)) b
              ∙ same_text_refl (key s a x))))

  -- An action that has begun begins once: the same call with the same inputs gives the same
  -- operation, and changes nothing, whatever the new identifier would be.
  pub begin-again :
      (i j : String) (a : Action) (x : Json) (v : Operation) (s t : Terminal)
      → begin_action digest_json i a x s ≡ ok v t
      → begin_action digest_json j a x t ≡ ok v t
  begin-again i j a x v s t h = begun-again i j a x v s t (begin-HasBegun i a x v s t h)
