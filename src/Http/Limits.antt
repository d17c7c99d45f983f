-- ===== src/Http/Limits.antt =====
-- The byte limits of velo_transfer/http_budget.py and velo_transfer/http_wire.py, about what
-- passes.
use mcp_velociraptor.Bytes.{total}
use mcp_velociraptor.Http.Streams.{
  received, read_body, disconnect, over_limit, part_of, forward, Passed, Ending, Message,
}
use mcp_velociraptor.Prelude.{
  length-append, subst, ◌∙◌, ◌↔◌, true, sym, false, [], ap, inr, inl, ◌<◌, ltb, ◌++◌, ◌≡◌,
  Bool-cases, length, ◌+◌, ◌≤◌, ◌∷◌, arith, Bool, String, ℕ, List, refl,
}

-- The parts of a stream before the first with which their sum is over the limit.
pub record IsPassed (limit count : ℕ) (code : String) (parts : List (List ℕ)) (ending : Ending)
    (p : Passed) : Type 0 where
  pub within : count ≤ limit → count + total p.parts ≤ limit
  pub is_prefix : (rest : List (List ℕ)) × (parts ≡ p.parts ++ rest)
  pub whole : count + total parts ≤ limit → (p.parts ≡ parts) × (p.ending ≡ ending)
  pub cut : count ≤ limit → limit < count + total parts → p.ending ≡ over_limit code

module _ (limit : ℕ) (code : String) (has_fact : Bool) (ending : Ending) where
  forward-IsPassed :
      (count : ℕ) (parts : List (List ℕ))
      → IsPassed limit count code parts ending (forward limit code has_fact count parts ending)
  unfolding forward
  forward-IsPassed count [] = record {
    within = λ h. omega (arith, h);
    is_prefix = ([], refl);
    whole = λ h. (refl, refl);
    cut = λ h over. absurd (omega (arith, h, over));
  }
  forward-IsPassed count (part ∷ parts) =
      let n = count + length part in
      let ih = forward-IsPassed n parts in
      elim (Bool-cases (ltb limit n)) [
        | inl over ↦ rw over (record {
          within = λ h. omega (arith, h);
          is_prefix = (part ∷ parts, refl);
          whole = λ h. absurd (ground (arith, over, h));
          cut = λ h k. refl;
        })
        | inr fits ↦
            let le : n ≤ limit = ground (arith, fits) in
            rw fits (record {
              within = λ h. omega (arith, ih.within le);
              is_prefix = (ih.is_prefix.0, ap (◌∷◌ part) ih.is_prefix.1);
              whole = λ h. let w = ih.whole (omega (arith, h)) in (ap (◌∷◌ part) w.0, w.1);
              cut = λ h k. ih.cut le (omega (arith, k));
            })
      ]

  -- A counted stream yields a first part of the parts of its stream, of at most the limit's bytes
  -- in all. Where all of them are within the limit, it yields them all and ends as the stream does;
  -- where they are not, it raises its own code.
  pub forward-within :
      (parts : List (List ℕ))
      → IsPassed limit 0 code parts ending (forward limit code has_fact 0 parts ending)
  forward-within parts = forward-IsPassed 0 parts

-- The body that messages carry, without a limit: the parts up to the first that says it is the
-- last, unless the connection ends before it.
abbrev pub IsBody : List Message → List ℕ → Type 0
IsBody [] body = ⊥
IsBody (disconnect ∷ messages) body = ⊥
IsBody (part_of part false ∷ messages) body = body ≡ part
IsBody (part_of part true ∷ messages) body =
    (rest : List ℕ) × (body ≡ part ++ rest) × IsBody messages rest

append_assoc : (a b c : List ℕ) → (a ++ b) ++ c ≡ a ++ (b ++ c)
append_assoc [] b c = refl
append_assoc (x ∷ a) b c = ap (◌∷◌ x) (append_assoc a b c)

module _ (limit : ℕ) where
  -- what is read after the first bytes `acc`
  abbrev After : List ℕ → List Message → List ℕ → Type 0
  After acc messages body =
      (rest : List ℕ) × (body ≡ acc ++ rest) × IsBody messages rest × (length body ≤ limit)

  read_body-After :
      (acc : List ℕ) (messages : List Message) (body : List ℕ)
      → read_body limit acc messages ≡ received body
      → After acc messages body
  unfolding read_body
  read_body-After acc [] body h = cc
  read_body-After acc (disconnect ∷ messages) body h = cc
  read_body-After acc (part_of part false ∷ messages) body h =
      let e : acc ++ part ≡ body = ground (arith, h) in
      let le : length acc + length part ≤ limit = ground (arith, h) in
      (
        part,
        sym e,
        refl,
        subst (λ b. length b ≤ limit) e (omega (arith, le, length-append acc part)),
      )
  read_body-After acc (part_of part true ∷ messages) body h =
      let next : read_body limit (acc ++ part) messages ≡ received body = ground (arith, h) in
      let (rest, e, is_body, le) = read_body-After (acc ++ part) messages body next in
      (part ++ rest, e ∙ append_assoc acc part rest, (rest, refl, is_body), le)

  After-read_body :
      (acc : List ℕ) (messages : List Message) (body : List ℕ)
      → After acc messages body
      → read_body limit acc messages ≡ received body
  unfolding read_body
  After-read_body acc [] body (rest, e, is_body, le) = absurd is_body
  After-read_body acc (disconnect ∷ messages) body (rest, e, is_body, le) = absurd is_body
  After-read_body acc (part_of part false ∷ messages) body (rest, e, is_body, le) =
      let same : body ≡ acc ++ part = e ∙ ap (λ r. acc ++ r) is_body in
      let short : length (acc ++ part) ≤ limit = subst (λ b. length b ≤ limit) same le in
      let fits : length acc + length part ≤ limit = omega (arith, short, length-append acc part) in
      ground (arith, fits, same)
  After-read_body acc (part_of part true ∷ messages) body (rest, e, (tail, f, is_body), le) =
      let same : body ≡ (acc ++ part) ++ tail =
        e ∙ (ap (λ r. acc ++ r) f ∙ sym (append_assoc acc part tail)) in
      let short : length ((acc ++ part) ++ tail) ≤ limit = subst (λ b. length b ≤ limit) same le in
      let fits : length acc + length part ≤ limit =
        omega (arith, short, length-append (acc ++ part) tail, length-append acc part) in
      let ih = After-read_body (acc ++ part) messages body (tail, same, is_body, le) in
      ground (arith, fits, ih)

  -- The gate receives a body exactly when the messages carry it, with a last part before the
  -- connection ends, and it is no longer than the limit.
  pub read_body_iff :
      (messages : List Message) (body : List ℕ)
      → (read_body limit [] messages ≡ received body)
        ↔ (IsBody messages body × (length body ≤ limit))
  read_body_iff messages body = (
    λ h.
        let (rest, e, is_body, le) = read_body-After [] messages body h in
        (subst (IsBody messages) (sym e) is_body, le),
    λ h. After-read_body [] messages body (body, refl, h.0, h.1),
  )
