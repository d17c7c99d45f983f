-- ===== src/Wire/HeaderTests.antt =====
-- The headers of a pull of three chunks.
use mcp_velociraptor.Text.{codes}
use mcp_velociraptor.Wire.Requests.{request_headers-IsRead, IsRead}
use mcp_velociraptor.Wire.Headers.{
  and_then, only_if, only_value, one_header, request_headers, number_header, Headers, ChunkRequest,
  pull,
}
use mcp_velociraptor.Prelude.{◌≡◌, [], ◌∷◌, some, none, refl}

abbrev pull_headers : Headers
pull_headers =
    (codes "X-Velo-Direction", codes "pull")
    ∷ (codes "x-velo-transfer-id", codes "t1")
    ∷ (
      codes "x-velo-request-digest",
      codes "0123456789abcdef0123456789abcdef0123456789abcdef0123456789abcdef",
    )
    ∷ (codes "accept", codes "text/html, text/plain")
    ∷ (codes "x-velo-offset", codes "1200")
    ∷ (codes "x-velo-count-per-chunk", codes "400")
    ∷ (codes "x-velo-chunk-count", codes "3")
    ∷ []

abbrev three_chunks : ChunkRequest
three_chunks = record {
  direction = pull;
  transfer_id = codes "t1";
  request_digest = codes "0123456789abcdef0123456789abcdef0123456789abcdef0123456789abcdef";
  offset = 1200;
  counts = some (400, 3);
}

reads_pull : request_headers pull_headers ≡ some three_chunks
unfolding request_headers number_header one_header only_value only_if and_then
reads_pull = refl

-- a leading zero is refused
refuses_zero : number_header (codes "n") 0 none ((codes "N", codes "01") ∷ []) ≡ none
unfolding number_header one_header only_value only_if and_then
refuses_zero = refl

request_headers-IsRead_example : IsRead pull_headers three_chunks
request_headers-IsRead_example = request_headers-IsRead pull_headers three_chunks reads_pull
