-- ===== src/Attempts/Invariant.antt =====
-- The steps of velociraptor_observation_attempts.py, about the counts of the ledger.
use mcp_velociraptor.Proc.{ok}
use mcp_velociraptor.Protocol.Faults.{Fault}
use mcp_velociraptor.Attempts.Rules.{
  Keeps-close, Triple-check, Keeps-publish, Keeps-on_error, Keeps-demand, Keeps-check,
}
use mcp_velociraptor.Proc.Keeps.{
  Keeps-weaken, Keeps-raise, Keeps-some_or, Keeps-if, Keeps-gets, Keeps-pure, Keeps-modify,
  Keeps-bind,
}
use mcp_velociraptor.Json.{Json}
use mcp_velociraptor.Proc.Triple.{Triple-modify, Triple-bind, Ends, Keeps-final, Keeps}
use mcp_velociraptor.Attempts.Counts.{
  new_attempt-IsAdmitted, reserve-IsLedger, set_phase-IsLedger, published-IsLedger, retire-IsLedger,
  IsLedger,
}
use mcp_velociraptor.Attempts.Begin.{begin_locked, record_begin, begin}
use mcp_velociraptor.Prelude.{
  ltb, Bool, String, Option, List, ℕ, if◌then◌else◌, true, false, [], ◌∷◌,
}
use mcp_velociraptor.Attempts.{
  set_phase, publish, poison, Reason, Method, Phase, Attempt, Answer, owned, available, Ledger,
  Entry, Approved, ended, lost, accepting, accepted, finishing, begun,
}
use mcp_velociraptor.Attempts.Calls.{
  begin_instance, has_phase, after, give_up, Event, Closing, perform, history, finish_start,
  finish_end, accept_start, accept_end, unreadable, still_open, closed_with, opens, begins,
  starts_accept, ends_accept, starts_finish, ends_finish, closes, poisons,
}

module _ (d : Approved) where
  poison-IsLedger : (s : Ledger) → IsLedger d s → IsLedger d (poison s)
  poison-IsLedger s h = h

  give_up-IsLedger : (n : ℕ) (s : Ledger) → IsLedger d s → IsLedger d (give_up d n s)
  give_up-IsLedger n s h =
      retire-IsLedger d n (set_phase n lost (poison s)) (set_phase-IsLedger d n lost (poison s) h)

  publish-IsLedger : (entry : Entry) (answer : Answer) → Keeps (IsLedger d) (publish d entry answer)
  publish-IsLedger entry answer = Keeps-publish d (λ s h. h) (published-IsLedger d) entry answer

  available-IsLedger : Keeps (IsLedger d) available
  unfolding available
  available-IsLedger = Keeps-check _

  owned-IsLedger : (n : ℕ) (p : Phase) → Keeps (IsLedger d) (owned n p)
  unfolding owned
  owned-IsLedger n p = Keeps-check _

  record_begin-IsLedger :
      (n : ℕ) (a : Attempt) (r : Reason) (x y : Answer)
      → Keeps (IsLedger d) (record_begin d n a r x y)
  unfolding record_begin
  record_begin-IsLedger n a r x y =
      Keeps-on_error _ _ (λ s h. retire-IsLedger d n (poison s) h)
        (Keeps-bind _ _ (publish-IsLedger _ x) λ _. Keeps-if _ _ _ (Keeps-pure _) (
          Keeps-bind _ _ (publish-IsLedger _ y) λ _. Keeps-modify _ (set_phase-IsLedger d n ended)))

  begin-IsLedger :
      (key : Json) (tool sha : String) (x y : Answer)
      → Keeps (IsLedger d) (begin d key tool sha x y)
  unfolding begin begin_locked available
  begin-IsLedger key tool sha x y = Keeps-bind _ _ (Keeps-demand _) λ _.
      Keeps-bind _ _ (Keeps-check _) λ _.
        Triple-bind
          (Triple-check (λ s. ltb s.attempt_count d.max_attempts) "attempt_budget_exhausted")
          λ _. Triple-bind (Keeps-weaken (Keeps-gets _) (λ _ _ h. h.1)) λ s.
            Triple-bind (Keeps-weaken (Keeps-check _) (λ _ _ h. h.1)) λ _.
              Triple-bind
                (Triple-modify _ λ t h.
                  reserve-IsLedger d (d.canonical_key key) _ t
                    (new_attempt-IsAdmitted d key tool sha (d.canonical_key key) t h.0) h.1)
                λ _. Keeps-bind _ _ (record_begin-IsLedger _ _ _ x y) λ _. Keeps-pure _

  accept_start-IsLedger : (n : ℕ) → Keeps (IsLedger d) (accept_start d n)
  unfolding accept_start
  accept_start-IsLedger n = Keeps-bind _ _ available-IsLedger λ _.
      Keeps-bind _ _ (owned-IsLedger n begun) λ _. Keeps-modify _ (set_phase-IsLedger d n accepting)

  accept_end-IsLedger :
      (n : ℕ) (o : Option Json) (x : Answer) → Keeps (IsLedger d) (accept_end d n o x)
  unfolding accept_end
  accept_end-IsLedger n o x = Keeps-on_error _ _ (give_up-IsLedger n) (
      Keeps-bind _ _ (Keeps-some_or _ _) λ ref. Keeps-bind _ _ available-IsLedger λ _.
        Keeps-bind _ _ (publish-IsLedger _ x) λ _. Keeps-modify _ (set_phase-IsLedger d n accepted))

  finish_start-IsLedger : (outcome : String) (n : ℕ) → Keeps (IsLedger d) (finish_start d outcome n)
  unfolding finish_start
  finish_start-IsLedger outcome n = Keeps-bind _ _ (Keeps-demand _) λ _.
      Keeps-bind _ _ (Keeps-check _) λ _.
        Keeps-bind _ _ (owned-IsLedger n accepted)
          λ _. Keeps-modify _ (set_phase-IsLedger d n finishing)

  finish_end-IsLedger : (n : ℕ) (c : Closing) (x : Answer) → Keeps (IsLedger d) (finish_end d n c x)
  unfolding finish_end
  finish_end-IsLedger n unreadable x =
      Keeps-bind _ _ (Keeps-modify _ λ s. set_phase-IsLedger d n accepted (poison s))
        λ _. Keeps-raise _
  finish_end-IsLedger n still_open x =
      Keeps-bind _ _ (Keeps-modify _ (set_phase-IsLedger d n accepted)) λ _. Keeps-raise _
  finish_end-IsLedger n (closed_with outcome g q r payload) x =
      Keeps-bind _ _
        (Keeps-on_error _ _ (give_up-IsLedger n) (
          Keeps-bind _ _ (Keeps-check _) λ _. Keeps-bind _ _ available-IsLedger λ _.
            Keeps-bind _ _ (publish-IsLedger _ x)
              λ _. Keeps-modify _ (set_phase-IsLedger d n ended)))
        λ _. Keeps-modify _ (retire-IsLedger d n)

  after-IsLedger :
      (n : ℕ) (p : Phase) (m : Method (Unit {0}))
      → Keeps (IsLedger d) m
      → Keeps (IsLedger d) (after d n p m)
  after-IsLedger n p m k = record { at = λ s h. of (has_phase d n p s) s h }
    where
      of :
          (b : Bool) (s : Ledger)
          → IsLedger d s
          → Ends
              (λ (_ : Unit {0}) t. IsLedger d t)
              (λ (_ : Fault) t. IsLedger d t)
              (if b then m s else ok tt s)
      of true s h = k.at s h
      of false s h = h

  begin_instance-IsLedger : (x : Answer) → Keeps (IsLedger d) (begin_instance d x)
  unfolding begin_instance
  begin_instance-IsLedger x = Keeps-on_error _ _ (λ s h. h) (publish-IsLedger _ x)

  perform-IsLedger : (e : Event d) → Keeps (IsLedger d) (perform d e)
  unfolding perform
  perform-IsLedger (opens x) = begin_instance-IsLedger x
  perform-IsLedger (begins key tool sha x y) =
      Keeps-bind _ _ (begin-IsLedger key tool sha x y) λ _. Keeps-pure _
  perform-IsLedger (starts_accept n) = accept_start-IsLedger n
  perform-IsLedger (ends_accept n o x) = after-IsLedger n accepting _ (accept_end-IsLedger n o x)
  perform-IsLedger (starts_finish outcome n) = finish_start-IsLedger outcome n
  perform-IsLedger (ends_finish n c x) = after-IsLedger n finishing _ (finish_end-IsLedger n c x)
  perform-IsLedger (closes x is_clean) =
      Keeps-close d (λ s h. h) (λ s h. h) (λ s h. h) (published-IsLedger d) x is_clean
  perform-IsLedger poisons = Keeps-modify _ (λ s h. h)

  -- In every history of steps from a ledger that is so, the ledger counts its attempts and its active
  -- ones exactly, both are within their budgets, the records and the bytes of the catalog are too, and
  -- the bytes that are reserved for requests are none, or fit the archive with its other records.
  pub history-IsLedger :
      (es : List (Event d)) (s : Ledger) → IsLedger d s → IsLedger d (history d es s)
  unfolding history
  history-IsLedger [] s h = h
  history-IsLedger (e ∷ es) s h = history-IsLedger es _ (Keeps-final (perform-IsLedger e) s h)
