-- ===== src/Flow/RequestTests.antt =====
-- A request with the default budget, and one whose deadline has no float.
use mcp_velociraptor.Flow.Model.{start}
use mcp_velociraptor.Flow.Tests.{calm}
use mcp_velociraptor.Flow.Coordinator.{run}
use mcp_velociraptor.Proc.{final}
use mcp_velociraptor.Flow.Parsed.{parsed-run-IsBounded, IsBounded}
use mcp_velociraptor.Flow.Requests.{parse_spec-IsRequest, IsRequest}
use mcp_velociraptor.Flow.Refusals.{parse_spec-overflow}
use mcp_velociraptor.Flow.Request.{request_of, parse_spec, Request, Python, loaded}
use mcp_velociraptor.Prelude.{
  false, [], ◌≡◌, ◌∷◌, ltb, Bool, ℕ, List, inl, inr, some, none, true, refl,
}
use mcp_velociraptor.Protocol.Faults.{crash}
use mcp_velociraptor.Json.{Json, str, int, obj, end, member}

abbrev request_doc : Json → Json
request_doc budget = obj (
    member "schema" (str "velo.flow.request.v1") (
      member "flow_id" (str "F.1") (
        member "connection_profile" (str "/etc/profile.json")
          (member "output_dir" (str "/tmp/run") (member "budget" budget end)))))

abbrev python : (ℕ → Bool) → Json → Python
python floats budget = record {
  loads = λ raw. loaded (request_doc budget);
  has_float = floats;
  unit = 1;
  literal = λ s. none;
  is_absolute = λ s. true;
  has_parent = λ s. false;
  encoded_length = λ s. some 8;
}

abbrev plain : Python
plain = python (λ n. true) (obj end)

abbrev small_floats : Python
small_floats = python (λ n. ltb n 1000000) (obj (member "deadline_seconds" (int 1000000) end))

abbrev text : List ℕ
text = 123 ∷ 125 ∷ []

abbrev usual : Request
usual = request_of plain (request_doc (obj end))

accepted : parse_spec plain text ≡ inl usual
unfolding parse_spec
accepted = refl

parse_spec-IsRequest_example : IsRequest 1 usual
parse_spec-IsRequest_example = parse_spec-IsRequest plain text usual accepted

parse_spec-overflow_example : parse_spec small_floats text ≡ inr crash
parse_spec-overflow_example =
    parse_spec-overflow small_floats text
      (request_doc (obj (member "deadline_seconds" (int 1000000) end))) 1000000 refl refl refl refl
      refl refl

parsed-run-IsBounded_example : IsBounded calm (final (run calm usual.spec none start))
parsed-run-IsBounded_example = parsed-run-IsBounded plain calm text usual none accepted
