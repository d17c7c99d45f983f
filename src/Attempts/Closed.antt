-- ===== src/Attempts/Closed.antt =====
-- What the `close` of velociraptor_observation_attempts.py has made sure of.
use mcp_velociraptor.Proc.Handle.{Triple-on_error}
use mcp_velociraptor.Attempts.Rules.{Triple-check, Keeps-exchange, Keeps-check}
use mcp_velociraptor.Paths.Collisions.{not-true}
use mcp_velociraptor.Json.Proper.{both}
use mcp_velociraptor.Proc.Keeps.{Keeps-some_or, Keeps-gets, Keeps-weaken}
use mcp_velociraptor.Proc.{◌>>◌, on_error, modify, err, ◌>>=◌, Exit, ok}
use mcp_velociraptor.Proc.Triple.{
  Triple-raise, Triple-modify, Triple-bind, Ends, Triple-mono, Keeps, Triple,
}
use mcp_velociraptor.Attempts.Calls.{
  cleanup, all_known, close_up, closed_check, is_ended, end_instance, close_open, close,
}
use mcp_velociraptor.Protocol.Faults.{demand, expect, Fault}
use mcp_velociraptor.Attempts.{
  poison, Method, Entry, record_published, Answer, publish, Ledger, Approved,
}
use mcp_velociraptor.Prelude.{
  ◌∙◌, sym, ==_iff, ap, ◌==◌, subst, ◌&&◌, not, ◌≡◌, ℕ, Bool, all, List, refl, if◌then◌else◌, true,
  false, Bool-cases, ◌⊎◌, inl, inr,
}

abbrev Nothing : {S : Type 0} → Fault → S → Type 0
Nothing e s = Unit {0}

module _ (d : Approved) where
  -- a record that is published keeps what its count keeps
  Triple-publish :
      {P : Ledger → Type 0}
      → ((raw : List ℕ) (s : Ledger) → P s → P (record_published d raw s))
      → (entry : Entry) (x : Answer) → Triple P (publish d entry x) (λ _ s. P s) Nothing
  unfolding publish
  Triple-publish k entry x = Keeps-bind_any (Keeps-gets _) λ s.
      Keeps-bind_any (Keeps-some_or _ _) λ raw. Keeps-bind_any (Keeps-check _) λ _.
        Triple-bind
          (Triple-on_error poison (Keeps-weaken (Keeps-exchange d raw x) (λ _ _ _. tt))
            (λ _ _ _. tt))
          λ _. Triple-modify (record_published d raw) (k raw)
    where
      Keeps-bind_any :
          {P : Ledger → Type 0} {A B : Type 0} {m : Method A} {f : A → Method B}
          {Q : B → Ledger → Type 0}
          → Keeps P m
          → ((a : A) → Triple P (f a) Q Nothing)
          → Triple P (m >>= f) Q Nothing
      Keeps-bind_any t u = Triple-bind (Keeps-weaken t (λ _ _ _. tt)) u

  -- no attempt is left
  pub record IsKnown (s : Ledger) : Type 0 where
    pub ended : all (is_ended d) s.attempts ≡ true
    pub known : s.is_unknown ≡ false
    pub idle : s.active ≡ 0

  close_open-IsKnown :
      (x : Answer) (is_clean : Bool)
      → Triple
          (λ _. Unit {0})
          (close_open d x is_clean)
          (λ _ s. IsKnown s × (s.is_closed ≡ true))
          Nothing
  unfolding close_open end_instance
  close_open-IsKnown x is_clean =
      Triple-bind (weak (Triple-check (λ s. s.active == 0) "active_attempts_remain")) λ _.
        Triple-bind closing λ _.
          Triple-bind recorded
            λ _. Triple-bind (Triple-modify (close_up d) λ s h. closed_up s h) λ _. cleaned is_clean
    where
      weak :
          {P : Ledger → Type 0} {X : Fault → Ledger → Type 0} {A : Type 0} {m : Method A}
          {R : A → Ledger → Type 0}
          → Triple P m R X
          → Triple P m R Nothing
      weak t = Triple-mono t (λ _ h. h) (λ _ _ h. h) (λ _ _ _. tt)

      known :
          (s : Ledger)
          → not s.is_unknown && all (is_ended d) s.attempts ≡ true
          → (s.active == 0) ≡ true
          → IsKnown s
      known s h k =
          let (u, e) = both _ _ h in
          record { ended = e; known = not-true _ u; idle = (==_iff s.active 0).0 k }

      closing :
          Triple {S = Ledger}
            (λ s. ((s.active == 0) ≡ true) × Unit {0})
            (modify (λ (s : Ledger). record s { is_closing = true }))
            (λ _ s. (s.active == 0) ≡ true)
            Nothing
      closing = Triple-modify _ λ s h. h.0

      recorded :
          Triple {S = Ledger}
            (λ s. (s.active == 0) ≡ true)
            (on_error (λ s. close_up d (poison s)) (all_known d >> end_instance d x))
            (λ _ s. IsKnown s)
            Nothing
      recorded =
          Triple-on_error (λ s. close_up d (poison s))
            (Triple-bind
              (weak (
                Triple-check (λ s. not s.is_unknown && all (is_ended d) s.attempts)
                  "ledger_unknown"))
              λ _.
                Triple-mono
                  (Triple-bind (Keeps-weaken (Keeps-gets _) (λ _ _ _. tt))
                    λ s. Triple-publish (λ raw t h. h) _ x)
                  (λ _ h. h) (λ _ s h. known s h.0 h.1) (λ _ _ h. h))
            (λ _ _ _. tt)

      closed_up :
          (s : Ledger) → IsKnown s → IsKnown (close_up d s) × ((close_up d s).is_closed ≡ true)
      closed_up s h = (record { ended = h.ended; known = h.known; idle = h.idle }, refl)

      cleaned :
          (b : Bool)
          → Triple {S = Ledger}
              (λ s. IsKnown s × (s.is_closed ≡ true))
              (cleanup d b)
              (λ _ s. IsKnown s × (s.is_closed ≡ true))
              Nothing
      cleaned true = record { at = λ s h. h }
      cleaned false =
          Triple-bind (Triple-modify {Q = λ _ (_ : Ledger). Unit {0}} poison λ s h. tt)
            λ _. Triple-raise _ λ s h. tt

  -- what holds of the ledger that a call of `close` leaves
  abbrev pub IsLeft : Ledger → Ledger → Type 0
  IsLeft s t =
      (t.is_closed ≡ true)
      × (t.is_unknown ≡ false)
      × (((s.is_closed ≡ true) × (t ≡ s)) ⊎ ((s.is_closed ≡ false) × IsKnown t))

  demanded :
      (b : Bool) (s t : Ledger)
      → demand (expect b "ledger_closed_unknown") s ≡ ok tt t
      → (b ≡ true) × (t ≡ s)
  demanded true s t h = (refl, cc h)
  demanded false s t h = cc h

  -- A call of `close` that returns leaves a closed ledger that is not unknown. A ledger that was
  -- closed before is left as it was; of one that was open, each attempt has ended and none is
  -- active.
  pub close-IsKnown :
      (x : Answer) (is_clean : Bool) (s t : Ledger) → close d x is_clean s ≡ ok tt t → IsLeft s t
  unfolding close
  close-IsKnown x is_clean s t h = elim (Bool-cases s.is_closed) [
    | inl c ↦ again c (demanded (not s.is_unknown) s t (branch true c))
    | inr o ↦
        of o (close_open d x is_clean s) ((close_open-IsKnown x is_clean).at s tt) (branch false o)
  ]
    where
      branch :
          (b : Bool)
          → s.is_closed ≡ b
          → (if b then demand (closed_check d s) s else close_open d x is_clean s) ≡ ok tt t
      branch b e =
          ap (λ b. if b then demand (closed_check d s) s else close_open d x is_clean s) (sym e) ∙ h

      again : s.is_closed ≡ true → (not s.is_unknown ≡ true) × (t ≡ s) → IsLeft s t
      again c (u, e) = (
        ap (λ r. r.is_closed) e ∙ c,
        ap (λ r. r.is_unknown) e ∙ not-true s.is_unknown u,
        inl (c, e),
      )

      of :
          s.is_closed ≡ false
          → (r : Exit Ledger Fault (Unit {0}))
          → Ends (λ _ s. IsKnown s × (s.is_closed ≡ true)) Nothing r
          → r ≡ ok tt t
          → IsLeft s t
      of o (ok u v) k e =
          let (a, c) = subst (λ w. IsKnown w × (w.is_closed ≡ true)) (cc e) k in
          (c, a.known, inr (o, a))
      of o (err f v) k e = cc e
