-- ===== src/Wire/Validate.antt =====
-- `validate`, `decode` and `encode` of velo_transfer/wire.py.
use mcp_velociraptor.Text.{is_hex}
use mcp_velociraptor.Wire.Frame.{frame, body_limit, batch_limit, header_limit, chunk_limit, parse}
use mcp_velociraptor.Prelude.{
  drop, ◌||◌, take, length, leb, false, ◌==◌, ◌+◌, ◌&&◌, true, none, ltb, [], ◌∷◌, some,
  if◌then◌else◌, Bool, ℕ, String, Option, List,
}
use mcp_velociraptor.Json.{items, is_text, contains, str, int, has_keys, arr, get, Json}

pub data Component : Type 0 where
  pull_request error_response push_response push_request pull_response : Component

-- `type(value) is int and minimum <= value <= maximum`
abbrev pub int_between : ℕ → ℕ → Json → Bool
int_between low high (int n) = leb low n && leb n high
int_between low high _ = false

abbrev pub is_natural : Json → Bool
is_natural (int n) = true
is_natural _ = false

-- `_digest`
abbrev pub is_digest : Json → Bool
is_digest (str s) = is_hex 64 s
is_digest _ = false

-- a test of `value[k]`, where the key is known to be there
abbrev pub at : String → (Json → Bool) → Json → Bool
at k test value = elim (get k value) [ none ↦ false | some v ↦ test v ]

abbrev pub is_str_in : List String → Json → Bool
is_str_in codes (str s) = contains codes s
is_str_in codes _ = false

abbrev pub is_empty : List ℕ → Bool
is_empty [] = true
is_empty (b ∷ bs) = false

abbrev pub item_keys : Component → List String
item_keys push_request = "count" ∷ "chunk_sha256" ∷ []
item_keys _ = "offset" ∷ "count" ∷ "chunk_sha256" ∷ []

abbrev pub count_of : Json → ℕ
count_of item = elim (get "count" item) [ none ↦ 0 | some v ↦ elim v [ int n ↦ n | _ ↦ 0 ] ]

abbrev pub offset_of : Json → ℕ
offset_of item = elim (get "offset" item) [ none ↦ 0 | some v ↦ elim v [ int n ↦ n | _ ↦ 0 ] ]

-- `previous_end is not None and item["offset"] != previous_end` is refused
abbrev pub follows : Option ℕ → Json → Bool
follows none item = true
follows (some end) item = offset_of item == end

abbrev pub end_of : Component → Json → Option ℕ
end_of pull_response item = some (offset_of item + count_of item)
end_of _ item = none

abbrev pub offset_valid : Component → Option ℕ → Json → Bool
offset_valid pull_response e i = at "offset" is_natural i && follows e i
offset_valid _ e i = true

-- the checks on one item but for its slice of the payload
abbrev pub item_valid : Component → Option ℕ → Json → Bool
item_valid c previous_end item =
    has_keys (item_keys c) item
    && (at "count" (int_between 1 chunk_limit) item && at "chunk_sha256" is_digest item)
    && offset_valid c previous_end item

module _ (sha256 : List ℕ → String) (error_codes : List String) where
  -- The loop over the items, from the cursor on.
  unfoldable pub items_valid : Component → List Json → ℕ → Option ℕ → List ℕ → Bool
  items_valid c [] cursor previous_end payload = cursor == length payload
  items_valid c (item ∷ rest) cursor previous_end payload =
      item_valid c previous_end item
      && (leb (cursor + count_of item) (length payload)
          && at "chunk_sha256" (is_text (sha256 (take (count_of item) (drop cursor payload)))) item)
      && items_valid c rest (cursor + count_of item) (end_of c item) payload

  unfoldable pub chunks_valid : Component → ℕ → List ℕ → Json → Bool
  chunks_valid c minimum payload (arr xs) =
      (leb minimum (length (items xs)) && leb (length (items xs)) 64)
      && leb (length payload) batch_limit
      && items_valid c (items xs) 0 none payload
  chunks_valid c minimum payload _ = false

  -- `validate`: true where it returns, false where it raises
  unfoldable pub validate : Json → List ℕ → Component → Bool
  validate header payload pull_request = has_keys [] header && is_empty payload
  validate header payload error_response =
      has_keys ("status" ∷ "error" ∷ []) header
      && at "error" (has_keys ("code" ∷ [])) header
      && at "status" (is_text "error") header
      && at "error" (at "code" (is_str_in error_codes)) header
      && is_empty payload
  validate header payload push_response =
      has_keys ("status" ∷ "result" ∷ []) header
      && at "result" (has_keys ("verified_offset" ∷ "accepted" ∷ [])) header
      && at "status" (is_text "success") header
      && is_empty payload
      && at "result" (at "verified_offset" is_natural) header
      && at "result" (at "accepted" (int_between 1 64)) header
  validate header payload push_request =
      has_keys ("chunks" ∷ []) header && at "chunks" (chunks_valid push_request 1 payload) header
  validate header payload pull_response =
      has_keys ("status" ∷ "result" ∷ []) header
      && at "result" (has_keys ("verified_offset" ∷ "chunks" ∷ [])) header
      && at "status" (is_text "success") header
      && at "result" (at "verified_offset" is_natural) header
      && at "result" (at "chunks" (chunks_valid pull_response 0 payload)) header

  unfoldable pub checked : Component → Option (Json × List ℕ) → Option (Json × List ℕ)
  checked c none = none
  checked c (some (header, payload)) =
      if validate header payload c then some (header, payload) else none

  -- `decode`
  unfoldable pub decode : (List ℕ → Option Json) → List ℕ → Component → Option (Json × List ℕ)
  decode loads body c = checked c (parse loads body)

  unfoldable pub sealed : Option (List ℕ) → List ℕ → Option (List ℕ)
  sealed none payload = none
  sealed (some raw) payload =
      if ltb header_limit (length raw) || ltb body_limit (8 + length raw + length payload)
      then none
      else some (frame raw payload)

  -- `encode`
  unfoldable pub encode : (Json → Option (List ℕ)) → Json → List ℕ → Component → Option (List ℕ)
  encode dumps header payload c =
      if validate header payload c then sealed (dumps header) payload else none
