-- ===== src/Attempts/Settled.antt =====
-- Attempts of velociraptor_observation_attempts.py that have ended or are lost.
use mcp_velociraptor.Attempts.Places.{
  settled-other, phase_at-append, owned-other, other_place, phase_at-turn_off, phase_at-length,
  phase_at-change, phase_at, is_settled,
}
use mcp_velociraptor.Proc.{ok}
use mcp_velociraptor.Protocol.Faults.{demand, Fault, Check}
use mcp_velociraptor.Attempts.Counts.{length-change, turn_off, set_at}
use mcp_velociraptor.Proc.Triple.{Ends, Keeps, Triple}
use mcp_velociraptor.Attempts.Begin.{is_seen, add_attempt, add_active, reserve}
use mcp_velociraptor.Prelude.{
  length-append, sym, ◌-◌, ◌∙◌, length, ap, ◌==◌, ◌++◌, ◌+◌, ◌≡◌, List, Bool, ℕ, refl,
  if◌then◌else◌, true, false, none, some, [], ◌∷◌, arith,
}
use mcp_velociraptor.Attempts.{
  is_active_at, poison, owned_check, nth, set_phase, owned, change, Method, retire, Ledger, Attempt,
  Approved, Phase, lost,
}
use mcp_velociraptor.Attempts.Calls.{has_phase, after, give_up}

module _ (n : ℕ) (p : Phase) where
  -- the attempt at the place is in the phase, and the places are counted
  abbrev pub IsAt : Ledger → Type 0
  IsAt s = (phase_at n s.attempts ≡ some p) × (s.attempt_count ≡ length s.attempts)

  -- and another place is not its own
  abbrev pub IsBeside : ℕ → Ledger → Type 0
  IsBeside m s = ((m == n) ≡ false) × IsAt s

  pub set_phase-IsBeside :
      (m : ℕ) (q : Phase) (s : Ledger) → IsBeside m s → IsBeside m (set_phase m q s)
  set_phase-IsBeside m q s (o, (h, c)) = (
    o,
    (
      phase_at-change m n (set_at q) s.attempts o ∙ h,
      c ∙ sym (length-change m (set_at q) s.attempts),
    ),
  )

  pub retire-IsAt : (m : ℕ) (s : Ledger) → IsAt s → IsAt (retire m s)
  unfolding retire
  retire-IsAt m s h = of (is_active_at m s.attempts)
    where
      of :
          (b : Bool)
          → IsAt (
              if b
              then record s { attempts = change m turn_off s.attempts; active = s.active - 1 }
              else s)
      of false = h
      of true =
          (phase_at-turn_off m n s.attempts ∙ h.0, h.1 ∙ sym (length-change m turn_off s.attempts))

  pub give_up-IsBeside :
      (d : Approved) (m : ℕ) (s : Ledger) → IsBeside m s → IsBeside m (give_up d m s)
  give_up-IsBeside d m s h =
      let k = set_phase-IsBeside m lost (poison s) h in
      (h.0, retire-IsAt m (set_phase m lost (poison s)) k.1)

  pub reserve-IsAt :
      (d : Approved) (raw : List ℕ) (a : Attempt) (s : Ledger) → IsAt s → IsAt (reserve d raw a s)
  unfolding reserve
  reserve-IsAt d raw a s (h, c) = of (is_seen raw s.seen) a.is_new
    where
      plus_one : (x y : ℕ) → x ≡ y → x + 1 ≡ y + 1
      plus_one x y e = omega arith

      grown :
          (phase_at n (s.attempts ++ a ∷ []) ≡ some p)
          × (s.attempt_count + 1 ≡ length (s.attempts ++ a ∷ []))
      grown = (
        phase_at-append n s.attempts (a ∷ []) p h,
        plus_one s.attempt_count (length s.attempts) c ∙ sym (length-append s.attempts (a ∷ [])),
      )

      of :
          (x b : Bool)
          → IsAt (
              add_active d b (
                if x then add_attempt d a s else record (add_attempt d a s) {
                  seen = raw ∷ s.seen;
                  seen_bytes = s.seen_bytes + length raw;
                }))
      of true true = grown
      of true false = grown
      of false true = grown
      of false false = grown

  -- the place of a new attempt
  pub new-IsBeside : (s : Ledger) → IsAt s → IsBeside s.attempt_count s
  new-IsBeside s (h, c) = (ap (λ k. k == n) c ∙ phase_at-length n s.attempts p h, (h, c))

  -- a place whose attempt is in a phase that steps leave
  module _ (is_final : is_settled p ≡ true) (m : ℕ) (q : Phase)
      (leaves : is_settled q ≡ false) where
    pub owned-IsBeside : Triple IsAt (owned m q) (λ _ s. IsBeside m s) (λ _ s. IsAt s)
    unfolding owned
    owned-IsBeside = record { at = λ s h. of s h (owned_check q (nth m s.attempts)) refl }
      where
        of :
            (s : Ledger)
            → IsAt s
            → (c : Check) → owned_check q (nth m s.attempts) ≡ c
            → Ends (λ (_ : Unit {0}) t. IsBeside m t) (λ (_ : Fault) t. IsAt t) (demand c s)
        of s h none e =
            (owned-other m n s.attempts p q h.0 (settled-other p q is_final leaves) e, h)
        of s h (some x) e = h

    pub after-IsAt :
        (d : Approved) (k : Method (Unit {0}))
        → Triple (IsBeside m) k (λ _ s. IsAt s) (λ _ s. IsAt s)
        → Keeps IsAt (after d m q k)
    after-IsAt d k t = record { at = λ s h. of s h (has_phase d m q s) refl }
      where
        of :
            (s : Ledger)
            → IsAt s
            → (b : Bool) → has_phase d m q s ≡ b
            → Ends
                (λ (_ : Unit {0}) t. IsAt t)
                (λ (_ : Fault) t. IsAt t)
                (if b then k s else ok tt s)
        of s h true e =
            t.at s (other_place m n s.attempts p q h.0 (settled-other p q is_final leaves) e, h)
        of s h false e = h
