-- ===== src/Wire/RoundTrip.antt =====
-- `encode`, `decode` and `parse` of velo_transfer/wire.py, about the bytes of a frame.
use mcp_velociraptor.Wire.Frame.{
  same_bytes_iff, same_bytes, from_bytes-to_bytes4, from_bytes, to_bytes4, magic, body_limit,
  header_limit, frame, parse_header, parse,
}
use mcp_velociraptor.Wire.Validate.{
  checked, sealed, pull_response, encode, decode, push_request, push_response, error_response,
  pull_request, Component, validate,
}
use mcp_velociraptor.Json.{null, obj, arr, str, real, negative, int, bool, is_dict, has_keys, Json}
use mcp_velociraptor.Prelude.{
  take-drop_append, All, take, length-take, ◌/◌, drop, ◌*◌, ◌%◌, ◌<◌, sym, subst, if◌then◌else◌,
  none, inr, inl, ap, ◌∙◌, Bool-cases, ◌∷◌, drop-length_append, take-length_append, length-append,
  arith, ◌++◌, some, ◌+◌, ◌≤◌, [], length, true, ◌≡◌, Option, ℕ, String, List, refl,
}

has_keys-is_dict : (names : List String) (j : Json) → has_keys names j ≡ true → is_dict j ≡ true
has_keys-is_dict names null h = h
has_keys-is_dict names (bool b) h = h
has_keys-is_dict names (int n) h = h
has_keys-is_dict names (negative n) h = h
has_keys-is_dict names (real s) h = h
has_keys-is_dict names (str s) h = h
has_keys-is_dict names (arr xs) h = h
has_keys-is_dict names (obj m) h = refl

module _ (sha256 : List ℕ → String) (error_codes : List String) where
  -- A header that is valid for any component is a dict.
  validate-is_dict :
      (header : Json) (payload : List ℕ) (c : Component)
      → validate sha256 error_codes header payload c ≡ true
      → is_dict header ≡ true
  unfolding validate
  validate-is_dict header payload pull_request h = ground (arith, has_keys-is_dict [] header)
  validate-is_dict header payload error_response h =
      ground (arith, has_keys-is_dict ("status" ∷ "error" ∷ []) header)
  validate-is_dict header payload push_response h =
      ground (arith, has_keys-is_dict ("status" ∷ "result" ∷ []) header)
  validate-is_dict header payload push_request h =
      ground (arith, has_keys-is_dict ("chunks" ∷ []) header)
  validate-is_dict header payload pull_response h =
      ground (arith, has_keys-is_dict ("status" ∷ "result" ∷ []) header)

module _ (loads : List ℕ → Option Json) where
  parse_header-append :
      (header : Json) (raw payload : List ℕ)
      → length raw ≤ header_limit
      → loads raw ≡ some header
      → is_dict header ≡ true
      → parse_header loads (length raw) (raw ++ payload) ≡ some (header, payload)
  unfolding parse_header
  parse_header-append header raw payload short e d = ground (
    arith,
    length-append raw payload,
    take-length_append raw payload,
    drop-length_append raw payload,
  )

  -- the tests of `parse`, where the body has its magic and at least eight bytes
  parse-magic :
      (b₀ b₁ b₂ b₃ : ℕ) (rest : List ℕ)
      → 8 + length rest ≤ body_limit
      → parse loads (magic ++ b₀ ∷ b₁ ∷ b₂ ∷ b₃ ∷ rest)
        ≡ parse_header loads (from_bytes (b₀ ∷ b₁ ∷ b₂ ∷ b₃ ∷ [])) rest
  unfolding parse
  parse-magic b₀ b₁ b₂ b₃ rest h = ground arith

  parse-frame :
      (header : Json) (raw payload : List ℕ)
      → length raw ≤ header_limit
      → 8 + length raw + length payload ≤ body_limit
      → loads raw ≡ some header
      → is_dict header ≡ true
      → parse loads (frame raw payload) ≡ some (header, payload)
  unfolding frame to_bytes4
  parse-frame header raw payload short fits e d =
      parse-magic _ _ _ _ (raw ++ payload) (omega (arith, length-append raw payload))
      ∙ (ap (λ n. parse_header loads n (raw ++ payload)) (from_bytes-to_bytes4 (length raw))
          ∙ parse_header-append header raw payload short e d)

module _ (sha256 : List ℕ → String) (error_codes : List String) (loads : List ℕ → Option Json)
    (dumps : Json → Option (List ℕ))
    (loads-dumps : (j : Json) (raw : List ℕ) → dumps j ≡ some raw → loads raw ≡ some j) where
  decode-sealed :
      (header : Json) (payload body : List ℕ) (c : Component) (o : Option (List ℕ))
      → validate sha256 error_codes header payload c ≡ true
      → dumps header ≡ o
      → sealed sha256 error_codes o payload ≡ some body
      → decode sha256 error_codes loads body c ≡ some (header, payload)
  unfolding decode checked sealed
  decode-sealed header payload body c none v e h = cc
  decode-sealed header payload body c (some raw) v e h =
      let framed : frame raw payload ≡ body = ground (arith, h) in
      let parsed =
        parse-frame loads header raw payload (ground (arith, h)) (ground (arith, h))
          (loads-dumps header raw e) (validate-is_dict sha256 error_codes header payload c v) in
      subst (λ b. decode sha256 error_codes loads b c ≡ some (header, payload)) framed
        (ap (checked sha256 error_codes c) parsed
          ∙ ap (λ t. if t then some (header, payload) else none) v)

  -- Where `json.loads` reads back what `json.dumps` wrote: a body that `encode` returns for a
  -- header and a payload is decoded, for the same component, to that header and that payload.
  pub decode-encode :
      (header : Json) (payload body : List ℕ) (c : Component)
      → encode sha256 error_codes dumps header payload c ≡ some body
      → decode sha256 error_codes loads body c ≡ some (header, payload)
  unfolding encode
  decode-encode header payload body c h =
      elim (Bool-cases (validate sha256 error_codes header payload c)) [
        | inl v ↦ decode-sealed header payload body c (dumps header) v refl (
            ap (λ t. if t then sealed sha256 error_codes (dumps header) payload else none) (sym v)
            ∙ h)
        | inr v ↦ ground (arith, v, h)
      ]

abbrev word : ℕ → ℕ → ℕ → ℕ → ℕ
word b₀ b₁ b₂ b₃ = b₀ + 256 * (b₁ + 256 * (b₂ + 256 * (b₃ + 256 * 0)))

to_bytes4-word :
    (b₀ b₁ b₂ b₃ : ℕ)
    → b₀ < 256
    → b₁ < 256
    → b₂ < 256
    → to_bytes4 (word b₀ b₁ b₂ b₃) ≡ b₀ ∷ b₁ ∷ b₂ ∷ b₃ ∷ []
unfolding to_bytes4
to_bytes4-word b₀ b₁ b₂ b₃ h₀ h₁ h₂ =
    let n = word b₀ b₁ b₂ b₃ in
    let e₀ : n % 256 ≡ b₀ = omega arith in
    let e₁ : n / 256 % 256 ≡ b₁ = omega arith in
    let e₂ : n / 65536 % 256 ≡ b₂ = omega arith in
    let e₃ : n / 16777216 ≡ b₃ = omega arith in cc (e₀, e₁, e₂, e₃)

module _ (loads : List ℕ → Option Json) where
  -- what a body is from which this was read
  abbrev pub IsFrame : List ℕ → Json → List ℕ → Type 0
  IsFrame body header payload =
      (raw : List ℕ) × (body ≡ frame raw payload)
      × (loads raw ≡ some header)
      × (length raw ≤ header_limit)

  header-IsFrame :
      (b₀ b₁ b₂ b₃ : ℕ) (rest : List ℕ) (header : Json) (payload : List ℕ)
      → b₀ < 256
      → b₁ < 256
      → b₂ < 256
      → parse_header loads (word b₀ b₁ b₂ b₃) rest ≡ some (header, payload)
      → IsFrame (magic ++ b₀ ∷ b₁ ∷ b₂ ∷ b₃ ∷ rest) header payload
  unfolding parse_header frame
  header-IsFrame b₀ b₁ b₂ b₃ rest header payload h₀ h₁ h₂ h =
      let n = word b₀ b₁ b₂ b₃ in
      let short : n ≤ length rest = ground (arith, h) in
      let e : drop n rest ≡ payload = ground (arith, h) in
      let size = length-take n rest short in
      let within : n ≤ header_limit = ground (arith, h) in
      (
        take n rest,
        ap (λ l. magic ++ (l ++ rest)) (sym (to_bytes4-word b₀ b₁ b₂ b₃ h₀ h₁ h₂))
            ∙ (ap (λ k. magic ++ (to_bytes4 k ++ rest)) (sym size)
                ∙ ap (λ l. magic ++ (to_bytes4 (length (take n rest)) ++ l))
                    (sym (take-drop_append n rest) ∙ ap (λ l. take n rest ++ l) e)),
        ground (arith, h),
        omega (arith, size, within),
      )

  -- A body of bytes that `parse` reads is a frame: the magic, the length of the header in four
  -- bytes, a header's bytes, at most 1 MiB, that `json.loads` reads as the header, and the payload.
  pub parse-IsFrame :
      (body : List ℕ) (header : Json) (payload : List ℕ)
      → All (λ b. b < 256) body
      → parse loads body ≡ some (header, payload)
      → IsFrame body header payload
  unfolding parse
  parse-IsFrame (m₀ ∷ m₁ ∷ m₂ ∷ m₃ ∷ b₀ ∷ b₁ ∷ b₂ ∷ b₃ ∷ rest) header payload bytes h =
      let body = b₀ ∷ b₁ ∷ b₂ ∷ b₃ ∷ rest in
      let same : same_bytes (m₀ ∷ m₁ ∷ m₂ ∷ m₃ ∷ []) magic ≡ true = ground (arith, h) in
      let e = (same_bytes_iff (m₀ ∷ m₁ ∷ m₂ ∷ m₃ ∷ []) magic).0 same in
      subst (λ m. IsFrame (m ++ body) header payload) (sym e)
        (header-IsFrame b₀ b₁ b₂ b₃ rest header payload bytes.1.1.1.1.0 bytes.1.1.1.1.1.0
          bytes.1.1.1.1.1.1.0 (ground (arith, h)))
  parse-IsFrame _ header payload bytes h = ground (arith, h)
