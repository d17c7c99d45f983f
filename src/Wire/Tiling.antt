-- ===== src/Wire/Tiling.antt =====
-- `validate` of velo_transfer/wire.py, about the items of a frame and its payload.
use mcp_velociraptor.Wire.Frame.{batch_limit, chunk_limit}
use mcp_velociraptor.Json.{items, arr, Items, null, int, get, is_text, Json}
use mcp_velociraptor.Wire.Validate.{
  push_response, error_response, pull_request, is_empty, validate, pull_response, push_request,
  chunks_valid, int_between, end_of, offset_valid, at, count_of, item_valid, items_valid, Component,
}
use mcp_velociraptor.Prelude.{
  ◌&&◌, Bool, refl, some, false, none, drop-drop, subst, take-drop_append, sym, take, length-take,
  length-drop, ◌+◌, drop_all, [], ◌∙◌, ap, arith, drop, length, ◌≤◌, ◌++◌, ◌∷◌, true, ◌≡◌, Option,
  String, ℕ, List,
}

abbrev number : Option Json → ℕ
number v = elim v [ none ↦ 0 | some x ↦ elim x [ int n ↦ n | _ ↦ 0 ] ]

first_and : (a b : Bool) → (a && b) ≡ true → a ≡ true
first_and true b h = refl
first_and false b h = h

last_and : (a b : Bool) → (a && b) ≡ true → b ≡ true
last_and true b h = h
last_and false b h = cc

module _ (sha256 : List ℕ → String) (error_codes : List String) where
  -- `rest` is one piece for each item: of the length that the item says, between 1 and the limit of
  -- a chunk, with the digest that it says, and, in a pull response, at the offset where the item
  -- before it ended.
  abbrev pub Tiles : Component → Option ℕ → List Json → List ℕ → Type 0
  Tiles c previous_end [] rest = rest ≡ []
  Tiles c previous_end (item ∷ more) rest =
      (piece : List ℕ) × (tail : List ℕ) × (rest ≡ piece ++ tail)
      × (length piece ≡ count_of item)
      × (1 ≤ length piece)
      × (length piece ≤ chunk_limit)
      × (at "chunk_sha256" (is_text (sha256 piece)) item ≡ true)
      × (offset_valid c previous_end item ≡ true)
      × Tiles c (end_of c item) more tail

  between :
      (v : Option Json)
      → elim v [ none ↦ false | some x ↦ int_between 1 chunk_limit x ] ≡ true
      → (1 ≤ number v) × (number v ≤ chunk_limit)
  between none h = ground arith
  between (some (int n)) h = (ground arith, ground arith)
  between (some null) h = ground arith
  between (some _) h = ground arith

  counted :
      (c : Component) (o : Option ℕ) (item : Json)
      → item_valid c o item ≡ true
      → (1 ≤ count_of item) × (count_of item ≤ chunk_limit) × (offset_valid c o item ≡ true)
  counted c o item h =
      let (low, high) = between (get "count" item) (ground (arith, h)) in
      (low, high, ground (arith, h))

  items_valid-Tiles :
      (c : Component) (xs : List Json) (cursor : ℕ) (previous_end : Option ℕ) (payload : List ℕ)
      → items_valid sha256 error_codes c xs cursor previous_end payload ≡ true
      → cursor ≤ length payload
      → Tiles c previous_end xs (drop cursor payload)
  unfolding items_valid
  items_valid-Tiles c [] cursor o payload h le =
      let e : cursor ≡ length payload = ground (arith, h) in
      ap (λ k. drop k payload) e ∙ drop_all payload
  items_valid-Tiles c (item ∷ xs) cursor o payload h le =
      let n = count_of item in
      let rest = drop cursor payload in
      let valid = counted c o item (ground (arith, h)) in
      let fits : cursor + n ≤ length payload = ground (arith, h) in
      let room : n ≤ length rest = omega (arith, fits, length-drop cursor payload) in
      let piece = length-take n rest room in
      (
        take n rest,
        drop n rest,
        sym (take-drop_append n rest),
        piece,
        omega (arith, piece, valid.0),
        omega (arith, piece, valid.1),
        ground (arith, h),
        valid.2,
        subst (Tiles c (end_of c item) xs) (sym (drop-drop cursor n payload))
            (items_valid-Tiles c xs (cursor + n) (end_of c item) payload (ground (arith, h)) fits),
      )

  -- A list of chunks that is accepted: its items, which divide the payload.
  abbrev pub Divides : Component → ℕ → List ℕ → Option Json → Type 0
  Divides c minimum payload chunks =
      (xs : Items) × (chunks ≡ some (arr xs))
      × (minimum ≤ length (items xs))
      × (length (items xs) ≤ 64)
      × (length payload ≤ batch_limit)
      × Tiles c none (items xs) payload

  chunks_valid-Divides :
      (c : Component) (minimum : ℕ) (payload : List ℕ) (chunks : Option Json)
      → elim chunks [ none ↦ false | some v ↦ chunks_valid sha256 error_codes c minimum payload v ]
        ≡ true
      → Divides c minimum payload chunks
  unfolding chunks_valid
  chunks_valid-Divides c minimum payload none h = cc
  chunks_valid-Divides c minimum payload (some (arr xs)) h = (
    xs,
    refl,
    ground (arith, h),
    ground (arith, h),
    ground (arith, h),
    items_valid-Tiles c (items xs) 0 none payload (ground (arith, h)) (omega arith),
  )
  chunks_valid-Divides c minimum payload (some _) h = cc

  -- What the components that are accepted say of their payload.
  abbrev pub Accepted : Component → Json → List ℕ → Type 0
  Accepted push_request header payload = Divides push_request 1 payload (get "chunks" header)
  Accepted pull_response header payload =
      (result : Json) × (get "result" header ≡ some result)
      × Divides pull_response 0 payload (get "chunks" result)
  Accepted _ header payload = payload ≡ []

  is_empty-eq : (payload : List ℕ) → is_empty payload ≡ true → payload ≡ []
  is_empty-eq [] h = refl
  is_empty-eq (b ∷ bs) h = cc

  pull_result :
      (payload : List ℕ) (o : Option Json)
      → elim o [
        | none ↦ false
        | some r ↦ at "chunks" (chunks_valid sha256 error_codes pull_response 0 payload) r
      ]
        ≡ true
      → (result : Json) × (o ≡ some result) × Divides pull_response 0 payload (get "chunks" result)
  pull_result payload none h = cc
  pull_result payload (some r) h =
      (r, refl, chunks_valid-Divides pull_response 0 payload (get "chunks" r) h)

  -- A frame that is valid carries no payload, unless it is a push request or a pull response. Then
  -- it has between 1 (a pull response: 0) and 64 items, and they divide the payload, of at most
  -- 64 MiB, into consecutive pieces: each as long as its item says, between 1 byte and 1 MiB, with
  -- the SHA-256 that its item says, and in a pull response at the offset where the item before it
  -- ended.
  pub validate-Accepted :
      (header : Json) (payload : List ℕ) (c : Component)
      → validate sha256 error_codes header payload c ≡ true
      → Accepted c header payload
  unfolding validate
  validate-Accepted header payload pull_request h = is_empty-eq payload (last_and _ _ h)
  validate-Accepted header payload error_response h = is_empty-eq payload (last_and _ _ h)
  validate-Accepted header payload push_response h =
      is_empty-eq payload (last_and _ _ (first_and _ _ (first_and _ _ h)))
  validate-Accepted header payload push_request h =
      chunks_valid-Divides push_request 1 payload (get "chunks" header) (last_and _ _ h)
  validate-Accepted header payload pull_response h =
      pull_result payload (get "result" header) (last_and _ _ h)
