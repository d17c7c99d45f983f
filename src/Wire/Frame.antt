-- ===== src/Wire/Frame.antt =====
-- The layout of a frame: `parse` of velo_transfer/wire.py and the bytes that `encode` joins.
use mcp_velociraptor.Json.{is_dict, Json}
use mcp_velociraptor.Prelude.{
  some, drop, take, not, none, ◌||◌, false, ◌&&◌, ltb, ◌↔◌, ◌==◌, ◌*◌, if◌then◌else◌, ◌/◌, ◌+◌,
  true, length, arith, [], ◌≡◌, ◌∷◌, ◌++◌, ◌%◌, Option, Bool, ℕ, List, refl,
}

abbrev pub magic : List ℕ
magic = b'V' ∷ b'B' ∷ b'T' ∷ b'1' ∷ []

-- 1 << 20
abbrev pub header_limit : ℕ
header_limit = 1048576

-- 1 << 20
abbrev pub chunk_limit : ℕ
chunk_limit = 1048576

-- 64 << 20
abbrev pub batch_limit : ℕ
batch_limit = 67108864

-- 100 << 20
abbrev pub body_limit : ℕ
body_limit = 104857600

-- `n.to_bytes(4, "little")`; the callers have checked that n is below 2 ^ 32
unfoldable pub to_bytes4 : ℕ → List ℕ
to_bytes4 n = n % 256 ∷ n / 256 % 256 ∷ n / 65536 % 256 ∷ n / 16777216 ∷ []

-- `int.from_bytes(b, "little")`
abbrev pub from_bytes : List ℕ → ℕ
from_bytes [] = 0
from_bytes (b ∷ bs) = b + 256 * from_bytes bs

abbrev pub same_bytes : List ℕ → List ℕ → Bool
same_bytes [] [] = true
same_bytes (a ∷ as') (b ∷ bs) = (a == b) && same_bytes as' bs
same_bytes _ _ = false

-- `None` stands for `WireError("invalid_frame")`, the one error of the module
module _ (loads : List ℕ → Option Json) where
  -- the header of a body whose first eight bytes were read
  unfoldable pub parse_header : ℕ → List ℕ → Option (Json × List ℕ)
  parse_header size rest =
      if ltb header_limit size || ltb (length rest) size
      then none
      else elim (loads (take size rest)) [
        | none ↦ none
        | some header ↦ if is_dict header then some (header, drop size rest) else none
      ]

  -- `parse`
  unfoldable pub parse : List ℕ → Option (Json × List ℕ)
  parse body =
      if ltb body_limit (length body) || ltb (length body) 8 || not (same_bytes (take 4 body) magic)
      then none
      else parse_header (from_bytes (take 4 (drop 4 body))) (drop 8 body)

-- The last line of `encode`: the frame of a header's bytes and a payload.
unfoldable pub frame : List ℕ → List ℕ → List ℕ
frame raw payload = magic ++ (to_bytes4 (length raw) ++ (raw ++ payload))

pub from_bytes-to_bytes4 : (n : ℕ) → from_bytes (to_bytes4 n) ≡ n
unfolding to_bytes4
from_bytes-to_bytes4 n = omega arith

pub same_bytes_iff : (as' bs : List ℕ) → (same_bytes as' bs ≡ true) ↔ (as' ≡ bs)
same_bytes_iff [] [] = (λ _. refl, λ _. refl)
same_bytes_iff [] (b ∷ bs) = (λ h. cc, λ h. cc)
same_bytes_iff (a ∷ as') [] = (λ h. cc, λ h. cc)
same_bytes_iff (a ∷ as') (b ∷ bs) =
    let ih = same_bytes_iff as' bs in (λ h. ground (arith, ih.0), λ h. ground (arith, ih.1))
