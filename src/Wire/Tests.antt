-- ===== src/Wire/Tests.antt =====
-- Frames of the wire protocol at concrete bytes, with a codec of one-item push requests.
use mcp_velociraptor.Text.{same_text, is_hex}
use mcp_velociraptor.Wire.Frame.{to_bytes4, frame, parse_header, parse}
use mcp_velociraptor.Wire.Validate.{
  push_request, items_valid, sealed, chunks_valid, validate, encode, decode,
}
use mcp_velociraptor.Wire.RoundTrip.{decode-encode, parse-IsFrame, IsFrame}
use mcp_velociraptor.Wire.Tiling.{validate-Accepted, Accepted}
use mcp_velociraptor.Prelude.{
  ◌∙◌, ap, none, arith, ◌&&◌, ◌∷◌, true, some, if◌then◌else◌, [], Bool, ◌<◌, ◌≡◌, ℕ, String, Option,
  List, All, refl,
}
use text.Mathlib.Text.{◌==◌ as str_eq}
use mcp_velociraptor.Json.{Json, int, str, arr, obj, nil, cons, end, member}

abbrev zeros : String
zeros = "0000000000000000000000000000000000000000000000000000000000000000"

abbrev hash : List ℕ → String
hash bytes = zeros

-- `{"chunks": [{"count": n, "chunk_sha256": "00…"}]}`
abbrev push_of : ℕ → Json
push_of n = obj (
    member "chunks"
      (arr (cons (obj (member "count" (int n) (member "chunk_sha256" (str zeros) end))) nil)) end)

-- the text of such a header is its count
abbrev loads_push : List ℕ → Option Json
loads_push (n ∷ []) = some (push_of n)
loads_push _ = none

abbrev are_push : String → String → String → String → Bool
are_push a b c d =
    str_eq a "chunks" && (str_eq b "count" && (str_eq c "chunk_sha256" && str_eq d zeros))

abbrev dumps_push : Json → Option (List ℕ)
dumps_push (obj (member a (arr (cons (obj (member b (int n) (member c (str d) end))) nil)) end)) =
    if are_push a b c d then some (n ∷ []) else none
dumps_push _ = none

loads-dumps_push : (j : Json) (raw : List ℕ) → dumps_push j ≡ some raw → loads_push raw ≡ some j
loads-dumps_push
      (obj (member a (arr (cons (obj (member b (int n) (member c (str d) end))) nil)) end)) raw h =
    let p = same_text a "chunks" (ground (arith, h)) in
    let q = same_text b "count" (ground (arith, h)) in
    let r = same_text c "chunk_sha256" (ground (arith, h)) in
    let t = same_text d zeros (ground (arith, h)) in
    let e : raw ≡ n ∷ [] = ground (arith, h) in ap loads_push e ∙ cc (p, q, r, t)
loads-dumps_push _ raw h = cc

abbrev piece : List ℕ
piece = 7 ∷ 8 ∷ 9 ∷ []

abbrev push_frame : List ℕ
push_frame = b'V' ∷ b'B' ∷ b'T' ∷ b'1' ∷ 1 ∷ 0 ∷ 0 ∷ 0 ∷ 3 ∷ piece

encoded : encode hash [] dumps_push (push_of 3) piece push_request ≡ some push_frame
unfolding encode sealed frame to_bytes4 validate chunks_valid items_valid is_hex
encoded = refl

decode-encode_example : decode hash [] loads_push push_frame push_request ≡ some (push_of 3, piece)
decode-encode_example =
    decode-encode hash [] loads_push dumps_push loads-dumps_push (push_of 3) piece push_frame
      push_request encoded

parsed : parse loads_push push_frame ≡ some (push_of 3, piece)
unfolding parse parse_header
parsed = refl

are_bytes : All (λ b. b < 256) push_frame
are_bytes = ground arith

parse-IsFrame_example : IsFrame loads_push push_frame (push_of 3) piece
parse-IsFrame_example = parse-IsFrame loads_push push_frame (push_of 3) piece are_bytes parsed

valid : validate hash [] (push_of 3) piece push_request ≡ true
unfolding validate chunks_valid items_valid is_hex
valid = refl

validate-Accepted_example : Accepted hash [] push_request (push_of 3) piece
validate-Accepted_example = validate-Accepted hash [] (push_of 3) piece push_request valid
