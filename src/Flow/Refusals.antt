-- ===== src/Flow/Refusals.antt =====
-- `parse_spec` of velo_flow/spec.py, about an exception that is no `SpecError`.
use mcp_velociraptor.Flow.Request.{
  budget_fields, fields_in, header_checks, number, parse_spec, Python, loaded,
}
use mcp_velociraptor.Prelude.{
  ◌∙◌, ap, ltb, ◌||◌, ◌==◌, length, ◌≡◌, ℕ, List, refl, true, false, some, none, inr,
}
use mcp_velociraptor.Protocol.Faults.{item, first, crash}
use mcp_velociraptor.Json.{get, Json, int}

module _ (py : Python) where
  overflow : (n : ℕ) → py.has_float n ≡ false → number py 10 360000 (int n) ≡ some crash
  overflow n f = rw f refl

  -- An accepted header and a budget whose deadline is an integer without a float end `parse_spec` by
  -- an exception that is no `SpecError`.
  pub parse_spec-overflow :
      (raw : List ℕ) (doc : Json) (n : ℕ)
      → py.loads raw ≡ loaded doc
      → (length raw == 0) || ltb 65536 (length raw) ≡ false
      → first (header_checks py doc) ≡ none
      → fields_in budget_fields (item "budget" doc) ≡ true
      → get "deadline_seconds" (item "budget" doc) ≡ some (int n)
      → py.has_float n ≡ false
      → parse_spec py raw ≡ inr crash
  unfolding parse_spec
  parse_spec-overflow raw doc n l size header fields d f =
      let limit = number py 10 360000 in
      let crashes = ap (λ o. limit (elim o [ none ↦ int 120 | some v ↦ v ])) d ∙ overflow n f in
      rw (size, l, header, fields, crashes) refl
