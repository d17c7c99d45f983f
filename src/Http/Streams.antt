-- ===== src/Http/Streams.antt =====
-- `CountedStream` of velo_transfer/http_budget.py, and the loop of `TransferHTTPGate` in
-- velo_transfer/http_wire.py that reads the body of a request.
use mcp_velociraptor.Wire.Frame.{body_limit}
use mcp_velociraptor.Prelude.{
  some, [], length, ltb, ◌+◌, none, if◌then◌else◌, ◌∷◌, min, Option, Bool, ◌++◌, ℕ, String, List,
}

-- How the iteration over a stream ends: at its end, by its own error, or by `HTTPBodyLimitError`.
pub data Ending : Type 0 where
  exhausted broken : Ending
  over_limit : String → Ending

-- The parts that were yielded, how the iteration ended, and the code that was noted for the call.
pub record Passed : Type 0 where
  pub parts : List (List ℕ)
  pub ending : Ending
  pub noted : Option String

abbrev pub more_of : List ℕ → Passed → Passed
more_of part p = record p { parts = part ∷ p.parts }

-- `self.limit` of `CountedTransport`
abbrev pub transport_limit : ℕ → ℕ
transport_limit limit = min limit body_limit

-- `__aiter__` of a stream with these parts, which then ends or raises; `has_fact` says whether the
-- call has a place for the failure's code.
unfoldable pub forward : ℕ → String → Bool → ℕ → List (List ℕ) → Ending → Passed
forward limit code has_fact count [] ending = record { parts = []; ending = ending; noted = none }
forward limit code has_fact count (part ∷ parts) ending =
    let rest = forward limit code has_fact (count + length part) parts ending in
    if ltb limit (count + length part)
    then record {
      parts = [];
      ending = over_limit code;
      noted = if has_fact then some code else none;
    }
    else more_of part rest

-- What `receive` gives: the end of the connection, or a part of the body and whether more follows.
pub data Message : Type 0 where
  disconnect : Message
  part_of : List ℕ → Bool → Message

-- How the reading ends; `waiting` is for the next message.
pub data Reading : Type 0 where
  gone too_large waiting : Reading
  received : List ℕ → Reading

unfoldable pub read_body : ℕ → List ℕ → List Message → Reading
read_body limit body [] = waiting
read_body limit body (disconnect ∷ messages) = gone
read_body limit body (part_of part more ∷ messages) =
    let rest = read_body limit (body ++ part) messages in
    if ltb limit (length body + length part)
    then too_large
    else if more
    then rest
    else received (body ++ part)
