-- ===== src/Attempts/Places.antt =====
-- The attempts of velociraptor_observation_attempts.py at their places, and their phases.
use mcp_velociraptor.Protocol.Checks.{expect-true}
use mcp_velociraptor.Json.Proper.{both}
use mcp_velociraptor.Attempts.Counts.{turn_off}
use mcp_velociraptor.Prelude.{
  length, ap, Option, ◌==◌, ◌++◌, ◌≡◌, List, Bool, ℕ, refl, true, false, none, some, [], ◌∷◌, zero,
  suc, arith,
}
use mcp_velociraptor.Attempts.{
  owned_check, nth, same_phase, change, Attempt, Phase, ended, lost, accepting, accepted, finishing,
  begun,
}

abbrev pub phase_at : ℕ → List Attempt → Option Phase
phase_at n [] = none
phase_at zero (a ∷ xs) = some a.phase
phase_at (suc n) (a ∷ xs) = phase_at n xs

pub phase_at-change :
    (m n : ℕ) (f : Attempt → Attempt) (xs : List Attempt)
    → (m == n) ≡ false
    → phase_at n (change m f xs) ≡ phase_at n xs
phase_at-change m n f [] h = refl
phase_at-change zero zero f (a ∷ xs) h = cc h
phase_at-change zero (suc n) f (a ∷ xs) h = refl
phase_at-change (suc m) zero f (a ∷ xs) h = refl
phase_at-change (suc m) (suc n) f (a ∷ xs) h = phase_at-change m n f xs (ground arith)

pub phase_at-turn_off :
    (m n : ℕ) (xs : List Attempt) → phase_at n (change m turn_off xs) ≡ phase_at n xs
phase_at-turn_off m n [] = refl
phase_at-turn_off zero zero (a ∷ xs) = refl
phase_at-turn_off zero (suc n) (a ∷ xs) = refl
phase_at-turn_off (suc m) zero (a ∷ xs) = refl
phase_at-turn_off (suc m) (suc n) (a ∷ xs) = phase_at-turn_off m n xs

pub phase_at-append :
    (n : ℕ) (xs ys : List Attempt) (p : Phase)
    → phase_at n xs ≡ some p
    → phase_at n (xs ++ ys) ≡ some p
phase_at-append n [] ys p h = cc h
phase_at-append zero (a ∷ xs) ys p h = h
phase_at-append (suc n) (a ∷ xs) ys p h = phase_at-append n xs ys p h

pub phase_at-length :
    (n : ℕ) (xs : List Attempt) (p : Phase) → phase_at n xs ≡ some p → (length xs == n) ≡ false
phase_at-length n [] p h = cc h
phase_at-length zero (a ∷ xs) p h = ground arith
phase_at-length (suc n) (a ∷ xs) p h = let k = phase_at-length n xs p h in ground arith

-- the place of an attempt in another phase is another place
pub other_place :
    (m n : ℕ) (xs : List Attempt) (p q : Phase)
    → phase_at n xs ≡ some p
    → same_phase p q ≡ false
    → elim (nth m xs) [ none ↦ false | some a ↦ same_phase a.phase q ] ≡ true
    → (m == n) ≡ false
other_place m n [] p q h d k = cc k
other_place zero zero (a ∷ xs) p q h d k = cc (some_same a.phase p h, d, k)
  where
    some_same : (x y : Phase) → some x ≡ some y → same_phase x q ≡ same_phase y q
    some_same x y e = ap (λ v. same_phase v q) (cc e)
other_place zero (suc n) (a ∷ xs) p q h d k = ground arith
other_place (suc m) zero (a ∷ xs) p q h d k = ground arith
other_place (suc m) (suc n) (a ∷ xs) p q h d k =
    let r = other_place m n xs p q h d k in ground arith

pub owned-other :
    (m n : ℕ) (xs : List Attempt) (p q : Phase)
    → phase_at n xs ≡ some p
    → same_phase p q ≡ false
    → owned_check q (nth m xs) ≡ none
    → (m == n) ≡ false
owned-other m n xs p q h d k = other_place m n xs p q h d (of (nth m xs) k)
  where
    of :
        (o : Option Attempt)
        → owned_check q o ≡ none
        → elim o [ none ↦ false | some a ↦ same_phase a.phase q ] ≡ true
    of none k = cc k
    of (some a) k = (both a.is_new _ (expect-true _ "attempt_reentry_or_phase" k)).1

-- no step leaves these phases
abbrev pub is_settled : Phase → Bool
is_settled ended = true
is_settled lost = true
is_settled _ = false

pub settled-other :
    (p q : Phase) → is_settled p ≡ true → is_settled q ≡ false → same_phase p q ≡ false
settled-other ended ended h k = cc k
settled-other ended lost h k = refl
settled-other ended begun h k = refl
settled-other ended accepting h k = refl
settled-other ended accepted h k = refl
settled-other ended finishing h k = refl
settled-other lost ended h k = refl
settled-other lost lost h k = cc k
settled-other lost begun h k = refl
settled-other lost accepting h k = refl
settled-other lost accepted h k = refl
settled-other lost finishing h k = refl
settled-other begun q h k = cc h
settled-other accepting q h k = cc h
settled-other accepted q h k = cc h
settled-other finishing q h k = cc h
