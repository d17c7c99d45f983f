-- ===== src/Http/Tests.antt =====
-- Two parts of a stream, and of a body.
use mcp_velociraptor.Http.Streams.{
  received, part_of, over_limit, exhausted, Message, read_body, forward, Passed,
}
use mcp_velociraptor.Http.Limits.{read_body_iff, IsBody, forward-within, IsPassed}
use mcp_velociraptor.Prelude.{◌≤◌, ◌↔◌, true, none, ◌≡◌, ◌∷◌, false, [], List, refl}

abbrev one_part : Passed
one_part = record {
  parts = (1 ∷ 2 ∷ []) ∷ [];
  ending = over_limit "request_too_large";
  noted = none;
}

cut_short :
    forward 3 "request_too_large" false 0 ((1 ∷ 2 ∷ []) ∷ (3 ∷ 4 ∷ []) ∷ []) exhausted ≡ one_part
unfolding forward
cut_short = refl

forward-within_example :
    IsPassed 3 0 "request_too_large"
      ((1 ∷ 2 ∷ []) ∷ (3 ∷ 4 ∷ []) ∷ [])
      exhausted
      (forward 3 "request_too_large" false 0 ((1 ∷ 2 ∷ []) ∷ (3 ∷ 4 ∷ []) ∷ []) exhausted)
forward-within_example =
    forward-within 3 "request_too_large" false exhausted ((1 ∷ 2 ∷ []) ∷ (3 ∷ 4 ∷ []) ∷ [])

abbrev two_parts : List Message
two_parts = part_of (1 ∷ []) true ∷ part_of (2 ∷ []) false ∷ []

read_body_iff_example :
    (read_body 2 [] two_parts ≡ received (1 ∷ 2 ∷ [])) ↔ (IsBody two_parts (1 ∷ 2 ∷ []) × (2 ≤ 2))
read_body_iff_example = read_body_iff 2 two_parts (1 ∷ 2 ∷ [])
