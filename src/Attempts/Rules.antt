-- ===== src/Attempts/Rules.antt =====
-- What the methods of the ledger in velociraptor_observation_attempts.py keep, for any property that
-- the changes of its fields keep.
use mcp_velociraptor.Attempts.Calls.{closed_check, end_instance, close_open, close}
use mcp_velociraptor.Proc.Keeps.{
  Keeps-raise, Keeps-pure, Keeps-if, Keeps-modify, Keeps-weaken, Keeps-gets, Keeps-some_or,
  Keeps-bind,
}
use mcp_velociraptor.Proc.Handle.{Triple-on_error}
use mcp_velociraptor.Proc.{on_error}
use mcp_velociraptor.Proc.Triple.{Triple-modify, Triple-bind, Ends, Triple, Keeps}
use mcp_velociraptor.Protocol.Faults.{Fault, expect, demand, Check}
use mcp_velociraptor.Attempts.{
  Entry, publish, record_published, has_room, Answer, exchange, poison, Method, Ledger, Approved,
}
use mcp_velociraptor.Prelude.{
  if◌then◌else◌, ◌≡◌, ℕ, String, List, Bool, refl, true, false, none, some,
}

-- a check of the object
pub Keeps-check : {P : Ledger → Type 0} (c : Ledger → Check) → Keeps P (λ s. demand (c s) s)
Keeps-check {P} c = record { at = λ s h. of (c s) s h }
  where
    of :
        (x : Check) (s : Ledger)
        → P s
        → Ends (λ (_ : Unit {0}) t. P t) (λ (_ : Fault) t. P t) (demand x s)
    of none s h = h
    of (some e) s h = h

-- a check that does not read it
pub Keeps-demand : {P : Ledger → Type 0} (c : Check) → Keeps P (demand c)
Keeps-demand none = record { at = λ s h. h }
Keeps-demand (some e) = record { at = λ s h. h }

pub Keeps-on_error :
    {P : Ledger → Type 0} {A : Type 0} (f : Ledger → Ledger) (m : Method A)
    → ((s : Ledger) → P s → P (f s))
    → Keeps P m
    → Keeps P (on_error f m)
Keeps-on_error f m k h = Triple-on_error f h (λ e s. k s)

-- past a check of the object its test holds
pub Triple-check :
    {P : Ledger → Type 0} (test : Ledger → Bool) (code : String)
    → Triple P (λ s. demand (expect (test s) code) s) (λ _ s. (test s ≡ true) × P s) (λ _ s. P s)
Triple-check {P} test code = record { at = λ s h. of (test s) s refl h }
  where
    of :
        (b : Bool) (s : Ledger)
        → test s ≡ b
        → P s
        → Ends
            (λ (_ : Unit {0}) t. (test t ≡ true) × P t)
            (λ (_ : Fault) t. P t)
            (demand (expect b code) s)
    of true s e h = (e, h)
    of false s e h = h

module _ (d : Approved) {P : Ledger → Type 0} where
  pub Keeps-exchange : (raw : List ℕ) (answer : Answer) → Keeps P (exchange d raw answer)
  unfolding exchange
  Keeps-exchange raw answer = Keeps-bind _ _ (Keeps-demand _) λ _.
      Keeps-bind _ _ (Keeps-some_or _ _)
        λ r. Keeps-bind _ _ (Keeps-gets _) λ s. Keeps-bind _ _ (Keeps-demand _) λ _. Keeps-demand _

module _ (d : Approved) {P : Ledger → Type 0} (poisoned : (s : Ledger) → P s → P (poison s))
    (published : (raw : List ℕ) (s : Ledger)
      → has_room d raw s ≡ true
      → P s
      → P (record_published d raw s)) where
  pub Keeps-publish : (entry : Entry) (answer : Answer) → Keeps P (publish d entry answer)
  unfolding publish
  Keeps-publish entry answer = Keeps-bind _ _ (Keeps-gets _) λ s.
      Keeps-bind _ _ (Keeps-some_or _ _) λ raw.
        Triple-bind (Triple-check (has_room d raw) "catalog_budget") λ _.
          Triple-bind (Keeps-weaken (handled raw) (λ _ _ h. h.1))
            λ _. Triple-modify (record_published d raw) (λ t h. published raw t h.0 h.1)
    where
      handled :
          (raw : List ℕ)
          → Keeps (λ s. (has_room d raw s ≡ true) × P s) (on_error poison (exchange d raw answer))
      handled raw =
          Keeps-on_error poison (exchange d raw answer) (λ s h. (h.0, poisoned s h.1))
            (Keeps-exchange d raw answer)

module _ (d : Approved) {P : Ledger → Type 0} (poisoned : (s : Ledger) → P s → P (poison s))
    (closing : (s : Ledger) → P s → P (record s { is_closing = true }))
    (closed : (s : Ledger) → P s → P (record s { is_closed = true }))
    (published : (raw : List ℕ) (s : Ledger)
      → has_room d raw s ≡ true
      → P s
      → P (record_published d raw s)) where
  -- what stays under the marks of the ledger and under its records stays when it is closed
  pub Keeps-close : (x : Answer) (is_clean : Bool) → Keeps P (close d x is_clean)
  unfolding close close_open end_instance
  Keeps-close x is_clean = record { at = λ s h. of s.is_closed s h }
    where
      opened : Keeps P (close_open d x is_clean)
      opened = Keeps-bind _ _ (Keeps-check _) λ _. Keeps-bind _ _ (Keeps-modify _ closing) λ _.
          Keeps-bind _ _
            (Keeps-on_error _ _ (λ s h. closed (poison s) (poisoned s h))
              (Keeps-bind _ _ (Keeps-check _)
                λ _. Keeps-bind _ _ (Keeps-gets _) λ s. Keeps-publish d poisoned published _ x))
            λ _. Keeps-bind _ _ (Keeps-modify _ closed) λ _.
              Keeps-if _ _ _ (Keeps-pure _)
                (Keeps-bind _ _ (Keeps-modify _ poisoned) λ _. Keeps-raise _)

      of :
          (b : Bool) (s : Ledger)
          → P s
          → Ends
              (λ (_ : Unit {0}) t. P t)
              (λ (_ : Fault) t. P t)
              (if b then demand (closed_check d s) s else close_open d x is_clean s)
      of true s h = (Keeps-check (closed_check d)).at s h
      of false s h = opened.at s h
