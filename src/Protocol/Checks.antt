-- ===== src/Protocol/Checks.antt =====
-- Checks of velo_transfer/protocol.py that have passed.
use mcp_velociraptor.Protocol.Receipts.{checked}
use mcp_velociraptor.Json.{Json}
use mcp_velociraptor.Protocol.Faults.{demand, first, expect, Fault, Check}
use mcp_velociraptor.Proc.{Exit, ◌>>◌, Proc, ◌>>=◌, ok}
use mcp_velociraptor.Prelude.{
  All, [], some, ◌∷◌, none, String, List, ◌≡◌, Bool, refl, true, false, inl,
}

pub demand-inversion :
    {S A : Type 0} (c : Check) (m : Proc S Fault A) (s t : S) (a : A)
    → (demand c >> m) s ≡ ok a t
    → (c ≡ none) × (m s ≡ ok a t)
unfolding ◌>>=◌
demand-inversion none m s t a h = (refl, h)
demand-inversion (some e) m s t a h = cc h

pub first-cons :
    (c : Check) (cs : List Check) → first (c ∷ cs) ≡ none → (c ≡ none) × (first cs ≡ none)
first-cons none cs h = (refl, h)
first-cons (some e) cs h = cc h

pub expect-true : (b : Bool) (code : String) → expect b code ≡ none → b ≡ true
expect-true true code h = refl
expect-true false code h = cc h

pub checked-inversion : (c : Check) (v w : Json) → checked c v ≡ inl w → (c ≡ none) × (v ≡ w)
checked-inversion none v w h = (refl, cc h)
checked-inversion (some e) v w h = cc h

-- the last two of four checks
pub first-four :
    (c₀ c₁ c₂ c₃ : Check) → first (c₀ ∷ c₁ ∷ c₂ ∷ c₃ ∷ []) ≡ none → (c₂ ≡ none) × (c₃ ≡ none)
first-four none none none none h = (refl, refl)
first-four none none none (some e) h = cc h
first-four none none (some e) _ h = cc h
first-four none (some e) _ _ h = cc h
first-four (some e) _ _ _ h = cc h

-- the last but one of five checks
pub first-fourth : (c₀ c₁ c₂ c₃ c₄ : Check) → first (c₀ ∷ c₁ ∷ c₂ ∷ c₃ ∷ c₄ ∷ []) ≡ none → c₃ ≡ none
first-fourth none none none none c₄ h = refl
first-fourth none none none (some e) c₄ h = cc h
first-fourth none none (some e) _ _ h = cc h
first-fourth none (some e) _ _ _ h = cc h
first-fourth (some e) _ _ _ _ h = cc h

-- the value and the object of a return
pub ok-value :
    {S E A : Type 0} {a b : A} {s t : S}
    → ◌≡◌ {A = Exit S E A} (ok a s) (ok b t)
    → (a ≡ b) × (s ≡ t)
ok-value h = (cc h, cc h)

-- Where no check raises, each of them has passed.
pub first-All : (cs : List Check) → first cs ≡ none → All (λ c. c ≡ none) cs
first-All [] h = tt
first-All (none ∷ cs) h = (refl, first-All cs h)
first-All (some e ∷ cs) h = cc h
