-- ===== src/Attempts/Final.antt =====
-- The steps of velociraptor_observation_attempts.py, about an attempt that has ended or is lost.
use mcp_velociraptor.Protocol.Faults.{Fault}
use mcp_velociraptor.Proc.{gets}
use mcp_velociraptor.Proc.Keeps.{
  Keeps-raise, Keeps-if, Keeps-some_or, Keeps-pure, Keeps-modify, Keeps-bind,
}
use mcp_velociraptor.Attempts.Rules.{
  Keeps-close, Keeps-publish, Keeps-demand, Keeps-on_error, Keeps-check,
}
use mcp_velociraptor.Json.{Json}
use mcp_velociraptor.Attempts.Settled.{
  reserve-IsAt, set_phase-IsBeside, owned-IsBeside, new-IsBeside, after-IsAt, retire-IsAt,
  give_up-IsBeside, IsBeside, IsAt,
}
use mcp_velociraptor.Proc.Triple.{
  Triple-modify, Triple-mono, Triple-bind, Keeps-final, Triple, Keeps,
}
use mcp_velociraptor.Attempts.Places.{is_settled}
use mcp_velociraptor.Attempts.Begin.{begin_locked, record_begin, begin}
use mcp_velociraptor.Prelude.{String, List, ◌≡◌, Option, ℕ, refl, true, [], ◌∷◌}
use mcp_velociraptor.Attempts.{
  poison, publish, Reason, Ledger, Attempt, Answer, available, Method, Entry, Phase, Approved,
  ended, accepting, accepted, finishing, begun,
}
use mcp_velociraptor.Attempts.Calls.{
  begin_instance, Event, perform, history, finish_start, accept_start, Closing, finish_end,
  accept_end, unreadable, still_open, closed_with, opens, begins, starts_accept, ends_accept,
  starts_finish, ends_finish, closes, poisons,
}

module _ (d : Approved) (n : ℕ) (p : Phase) where
  publish-IsAt : (entry : Entry) (x : Answer) → Keeps (IsAt n p) (publish d entry x)
  publish-IsAt entry x = Keeps-publish d (λ s h. h) (λ raw s _ h. h) entry x

  publish-IsBeside :
      (m : ℕ) (entry : Entry) (x : Answer) → Keeps (IsBeside n p m) (publish d entry x)
  publish-IsBeside m entry x = Keeps-publish d (λ s h. h) (λ raw s _ h. h) entry x

  available-Keeps : {P : Ledger → Type 0} → Keeps P available
  unfolding available
  available-Keeps = Keeps-check _

  record_begin-IsBeside :
      (m : ℕ) (a : Attempt) (r : Reason) (x y : Answer)
      → Keeps (IsBeside n p m) (record_begin d m a r x y)
  unfolding record_begin
  record_begin-IsBeside m a r x y =
      Keeps-on_error _ _ (λ s h. (h.0, retire-IsAt n p m (poison s) h.1))
        (Keeps-bind _ _ (publish-IsBeside m _ x) λ _. Keeps-if _ _ _ (Keeps-pure _) (
          Keeps-bind _ _ (publish-IsBeside m _ y)
            λ _. Keeps-modify _ (set_phase-IsBeside n p m ended)))

  begin-IsAt :
      (key : Json) (tool sha : String) (x y : Answer) → Keeps (IsAt n p) (begin d key tool sha x y)
  unfolding begin begin_locked
  begin-IsAt key tool sha x y = Keeps-bind _ _ (Keeps-demand _) λ _.
      Keeps-bind _ _ available-Keeps λ _. Keeps-bind _ _ (Keeps-check _) λ _.
        Triple-bind placed λ s.
          Triple-mono
            (Keeps-bind _ _ (Keeps-check _) λ _.
              Keeps-bind _ _
                (Keeps-modify _ λ t h. (h.0, reserve-IsAt n p d (d.canonical_key key) _ t h.1))
                λ _.
                  Keeps-bind _ _ (record_begin-IsBeside s.attempt_count _ _ x y) λ _. Keeps-pure _)
            (λ _ h. h) (λ _ _ h. h.1) (λ _ _ h. h.1)
    where
      placed :
          Triple {E = Fault}
            (IsAt n p)
            (gets (λ s. s))
            (λ s t. IsBeside n p s.attempt_count t)
            (λ _ t. IsAt n p t)
      placed = record { at = λ s h. new-IsBeside n p s h }

  module _ (is_final : is_settled p ≡ true) where
    accept_start-IsAt : (m : ℕ) → Keeps (IsAt n p) (accept_start d m)
    unfolding accept_start
    accept_start-IsAt m = Keeps-bind _ _ available-Keeps λ _.
        Triple-bind (owned-IsBeside n p is_final m begun refl)
          λ _. Triple-modify _ λ s h. (set_phase-IsBeside n p m accepting s h).1

    finish_start-IsAt : (outcome : String) (m : ℕ) → Keeps (IsAt n p) (finish_start d outcome m)
    unfolding finish_start
    finish_start-IsAt outcome m = Keeps-bind _ _ (Keeps-demand _) λ _.
        Keeps-bind _ _ (Keeps-check _) λ _.
          Triple-bind (owned-IsBeside n p is_final m accepted refl)
            λ _. Triple-modify _ λ s h. (set_phase-IsBeside n p m finishing s h).1

  accept_end-IsBeside :
      (m : ℕ) (o : Option Json) (x : Answer) → Keeps (IsBeside n p m) (accept_end d m o x)
  unfolding accept_end
  accept_end-IsBeside m o x = Keeps-on_error _ _ (give_up-IsBeside n p d m) (
      Keeps-bind _ _ (Keeps-some_or _ _) λ ref. Keeps-bind _ _ available-Keeps λ _.
        Keeps-bind _ _ (publish-IsBeside m _ x)
          λ _. Keeps-modify _ (set_phase-IsBeside n p m accepted))

  finish_end-IsBeside :
      (m : ℕ) (c : Closing) (x : Answer) → Keeps (IsBeside n p m) (finish_end d m c x)
  unfolding finish_end
  finish_end-IsBeside m unreadable x =
      Keeps-bind _ _ (Keeps-modify _ λ s. set_phase-IsBeside n p m accepted (poison s))
        λ _. Keeps-raise _
  finish_end-IsBeside m still_open x =
      Keeps-bind _ _ (Keeps-modify _ (set_phase-IsBeside n p m accepted)) λ _. Keeps-raise _
  finish_end-IsBeside m (closed_with outcome g q r payload) x =
      Keeps-bind _ _
        (Keeps-on_error _ _ (give_up-IsBeside n p d m) (
          Keeps-bind _ _ (Keeps-check _) λ _. Keeps-bind _ _ available-Keeps λ _.
            Keeps-bind _ _ (publish-IsBeside m _ x)
              λ _. Keeps-modify _ (set_phase-IsBeside n p m ended)))
        λ _. Keeps-modify _ (λ s h. (h.0, retire-IsAt n p m s h.1))

  IsBeside-IsAt :
      (m : ℕ) (k : Method (Unit {0}))
      → Keeps (IsBeside n p m) k
      → Triple (IsBeside n p m) k (λ _ s. IsAt n p s) (λ _ s. IsAt n p s)
  IsBeside-IsAt m k t = Triple-mono t (λ _ h. h) (λ _ _ h. h.1) (λ _ _ h. h.1)

  begin_instance-IsAt : (x : Answer) → Keeps (IsAt n p) (begin_instance d x)
  unfolding begin_instance
  begin_instance-IsAt x = Keeps-on_error _ _ (λ s h. h) (publish-IsAt _ x)

  module _ (is_final : is_settled p ≡ true) where
    perform-IsAt : (e : Event d) → Keeps (IsAt n p) (perform d e)
    unfolding perform
    perform-IsAt (opens x) = begin_instance-IsAt x
    perform-IsAt (begins key tool sha x y) =
        Keeps-bind _ _ (begin-IsAt key tool sha x y) λ _. Keeps-pure _
    perform-IsAt (starts_accept m) = accept_start-IsAt is_final m
    perform-IsAt (ends_accept m o x) =
        after-IsAt n p is_final m accepting refl d _ (IsBeside-IsAt m _ (accept_end-IsBeside m o x))
    perform-IsAt (starts_finish outcome m) = finish_start-IsAt is_final outcome m
    perform-IsAt (ends_finish m c x) =
        after-IsAt n p is_final m finishing refl d _ (IsBeside-IsAt m _ (finish_end-IsBeside m c x))
    perform-IsAt (closes x is_clean) =
        Keeps-close d (λ s h. h) (λ s h. h) (λ s h. h) (λ raw s _ h. h) x is_clean
    perform-IsAt poisons = Keeps-modify _ (λ s h. h)

    -- In a ledger that counts its attempts, the attempt at a place that has ended, or is lost, stays so
    -- at that place in every history of steps.
    pub history-settled :
        (es : List (Event d)) (s : Ledger) → IsAt n p s → IsAt n p (history d es s)
    unfolding history
    history-settled [] s h = h
    history-settled (e ∷ es) s h = history-settled es _ (Keeps-final (perform-IsAt e) s h)
