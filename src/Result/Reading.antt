-- ===== src/Result/Reading.antt =====
-- `decode_result` of velo_transfer/result.py, against the bytes and texts that it takes.
use text.Mathlib.Text.{◌==◌ as str_eq}
use mcp_velociraptor.Protocol.Faults.{Check, expect, failing, Fault, first}
use mcp_velociraptor.Text.{same_text, same_text_refl}
use mcp_velociraptor.Result.Codes.{accepted}
use mcp_velociraptor.Result.Shape.{encoded-written}
use mcp_velociraptor.Result.Outcome.{
  is_repeated, bytes_of, Parse, validate_result, encode_result, decode_result, parsed,
}
use mcp_velociraptor.Result.{budget, Outside}
use mcp_velociraptor.Json.{keys, Json, Members}
use mcp_velociraptor.Prelude.{
  All, Bool, Bool-cases, sym, ◌∙◌, ap, subst, ◌≤◌, ◌≢◌, ◌≡◌, ◌↔◌, ◌⊎◌, ◌||◌, any, length, leb,
  Option, List, String, ℕ, refl, if◌then◌else◌, true, false, none, some, [], ◌∷◌, inl, inr, arith,
}

-- no text stands twice in the list
abbrev pub Distinct : List String → Type 0
Distinct [] = Unit {0}
Distinct (k ∷ ks) = All (λ j. k ≢ j) ks × Distinct ks

either-false : (x y : Bool) → x || y ≡ false → (x ≡ false) × (y ≡ false)
either-false true y h = cc h
either-false false y h = (refl, h)

differ : (k j : String) → str_eq k j ≡ false → k ≢ j
differ k j e p = cc (e, same_text_refl k, p)

differ-false : (k j : String) → k ≢ j → str_eq k j ≡ false
differ-false k j n = elim (Bool-cases (str_eq k j)) [
  | inl e ↦ absurd (n (same_text k j e))
  | inr e ↦ e
]

all-differ :
    (k : String) (ks : List String) → any (λ j. str_eq k j) ks ≡ false → All (λ j. k ≢ j) ks
all-differ k [] h = tt
all-differ k (j ∷ ks) h =
    let (e, rest) = either-false (str_eq k j) (any (λ i. str_eq k i) ks) h in
    (differ k j e, all-differ k ks rest)

none-same : (k : String) (ks : List String) → All (λ j. k ≢ j) ks → any (λ j. str_eq k j) ks ≡ false
none-same k [] h = refl
none-same k (j ∷ ks) (n, h) =
    ap (λ b. b || any (λ i. str_eq k i) ks) (differ-false k j n) ∙ none-same k ks h

repeated-Distinct : (ks : List String) → is_repeated ks ≡ false → Distinct ks
repeated-Distinct [] h = tt
repeated-Distinct (k ∷ ks) h =
    let (e, rest) = either-false (any (λ j. str_eq k j) ks) (is_repeated ks) h in
    (all-differ k ks e, repeated-Distinct ks rest)

Distinct-repeated : (ks : List String) → Distinct ks → is_repeated ks ≡ false
Distinct-repeated [] h = refl
Distinct-repeated (k ∷ ks) (h, rest) =
    ap (λ b. b || is_repeated ks) (none-same k ks h) ∙ Distinct-repeated ks rest

dicts-Distinct :
    (ms : List Members)
    → any (λ m. is_repeated (keys m)) ms ≡ false
    → All (λ m. Distinct (keys m)) ms
dicts-Distinct [] h = tt
dicts-Distinct (m ∷ ms) h =
    let (e, rest) = either-false (is_repeated (keys m)) (any (λ n. is_repeated (keys n)) ms) h in
    (repeated-Distinct (keys m) e, dicts-Distinct ms rest)

Distinct-dicts :
    (ms : List Members)
    → All (λ m. Distinct (keys m)) ms
    → any (λ m. is_repeated (keys m)) ms ≡ false
Distinct-dicts [] h = refl
Distinct-dicts (m ∷ ms) (h, rest) =
    ap (λ b. b || any (λ n. is_repeated (keys n)) ms) (Distinct-repeated (keys m) h)
    ∙ Distinct-dicts ms rest

module _ (o : Outside) (max_files max_metadata_bytes : ℕ) where
  -- the bytes are within their limit, no dict in them has a key twice, and their value is one that
  -- `encode_result` writes
  pub record IsReadable (p : Parse) (raw : List ℕ) (d : Json) : Type 0 where
    pub short : length raw ≤ max_metadata_bytes
    pub distinct : All (λ m. Distinct (keys m)) p.dicts
    pub read : p.value ≡ some d
    pub written : (line : List ℕ) × (encode_result o max_files max_metadata_bytes d ≡ inl line)

  abbrev Valid : Json → Type 0
  Valid d = validate_result o max_files max_metadata_bytes d ≡ inl d

  -- what `encode_result` writes is what `validate_result` accepts
  encode-Valid :
      (d : Json) (line : List ℕ)
      → encode_result o max_files max_metadata_bytes d ≡ inl line
      → Valid d
  unfolding encode_result
  encode-Valid d line h = of (validate_result o max_files max_metadata_bytes d) refl h
    where
      of :
          (x : Json ⊎ Fault)
          → validate_result o max_files max_metadata_bytes d ≡ x
          → (elim x [
            | inl v ↦ bytes_of o max_files max_metadata_bytes (o.canonical_json v)
            | inr e ↦ inr e
          ])
            ≡ inl line
          → Valid d
      of (inr e) k h = cc h
      of (inl v) k h = k ∙ ap inl (sym (accepted o max_files max_metadata_bytes d v k).1)

  Valid-encode :
      (d : Json)
      → Valid d
      → (line : List ℕ) × (encode_result o max_files max_metadata_bytes d ≡ inl line)
  unfolding encode_result
  Valid-encode d h =
      let ((_, (_, (c, _))), _) = accepted o max_files max_metadata_bytes d d h in
      let (line, e, _) = encoded-written o max_files max_metadata_bytes (o.canonical_json d) c in
      (
        line,
        ap
              (λ x. elim x [
                | inl v ↦ bytes_of o max_files max_metadata_bytes (o.canonical_json v)
                | inr e ↦ inr e
              ])
              h
            ∙ ap (λ x. bytes_of o max_files max_metadata_bytes x) e,
      )

  Valid-budget : (d : Json) → Valid d → budget max_files max_metadata_bytes ≡ none
  Valid-budget d h = (accepted o max_files max_metadata_bytes d d h).0.0

  -- one test after the other
  parsed-inversion :
      (p : Parse) (d : Json)
      → parsed o max_files max_metadata_bytes p ≡ inl d
      → All (λ m. Distinct (keys m)) p.dicts × (p.value ≡ some d) × Valid d
  parsed-inversion p d h = of (any (λ m. is_repeated (keys m)) p.dicts) p.value refl refl h
    where
      of :
          (b : Bool) (x : Option Json)
          → any (λ m. is_repeated (keys m)) p.dicts ≡ b
          → p.value ≡ x
          → (if b then inr (failing "duplicate_result_key") else elim x [
            | none ↦ inr (failing "invalid_result_json")
            | some v ↦ validate_result o max_files max_metadata_bytes v
          ])
            ≡ inl d
          → All (λ m. Distinct (keys m)) p.dicts × (p.value ≡ some d) × Valid d
      of true x e k h = cc h
      of false none e k h = cc h
      of false (some v) e k h =
          let q = (accepted o max_files max_metadata_bytes v d h).1 in
          (
            dicts-Distinct p.dicts e,
            k ∙ ap some q,
            subst (λ u. validate_result o max_files max_metadata_bytes u ≡ inl d) q h,
          )

  decode-inversion :
      (loads : List ℕ → Parse) (raw : List ℕ) (d : Json)
      → decode_result o max_files max_metadata_bytes loads raw ≡ inl d
      → (leb (length raw) max_metadata_bytes ≡ true)
        × (parsed o max_files max_metadata_bytes (loads raw) ≡ inl d)
  unfolding decode_result
  decode-inversion loads raw d h =
      of (budget max_files max_metadata_bytes) (leb (length raw) max_metadata_bytes) refl h
    where
      of :
          (c : Check) (b : Bool)
          → leb (length raw) max_metadata_bytes ≡ b
          → (elim (first (c ∷ expect b "result_budget_exceeded" ∷ [])) [
            | some e ↦ inr e
            | none ↦ parsed o max_files max_metadata_bytes (loads raw)
          ])
            ≡ inl d
          → (leb (length raw) max_metadata_bytes ≡ true)
            × (parsed o max_files max_metadata_bytes (loads raw) ≡ inl d)
      of (some e) b k h = cc h
      of none true k h = (k, h)
      of none false k h = cc h

  passes :
      (c : Check) (b x : Bool) (y : Option Json) (d : Json)
      → c ≡ none
      → b ≡ true
      → x ≡ false
      → y ≡ some d
      → (elim (first (c ∷ expect b "result_budget_exceeded" ∷ [])) [
        | some e ↦ inr e
        | none ↦ if x then inr (failing "duplicate_result_key") else elim y [
          | none ↦ inr (failing "invalid_result_json")
          | some v ↦ validate_result o max_files max_metadata_bytes v
        ]
      ])
        ≡ validate_result o max_files max_metadata_bytes d
  passes c b x y d hc hb hx hy = rw (hc, hb, hx, hy) refl

  within : (n : ℕ) → leb n max_metadata_bytes ≡ true → n ≤ max_metadata_bytes
  within n k = ground arith

  within-true : (n : ℕ) → n ≤ max_metadata_bytes → leb n max_metadata_bytes ≡ true
  within-true n k = ground arith

  -- `decode_result` gives a value exactly where the bytes are at most `max_metadata_bytes`, no dict of
  -- their text has a key twice, and the value of their text is that one and can be written again by
  -- `encode_result` with the same limits.
  pub decode_result_iff :
      (loads : List ℕ → Parse) (raw : List ℕ) (d : Json)
      → (decode_result o max_files max_metadata_bytes loads raw ≡ inl d)
        ↔ IsReadable (loads raw) raw d
  unfolding decode_result
  decode_result_iff loads raw d = (
    λ h.
        let (short, k) = decode-inversion loads raw d h in
        let (distinct, read, valid) = parsed-inversion (loads raw) d k in
        record {
          short = within (length raw) short;
          distinct = distinct;
          read = read;
          written = Valid-encode d valid;
        },
    λ h.
        let valid = encode-Valid d h.written.0 h.written.1 in
        passes (budget max_files max_metadata_bytes) (leb (length raw) max_metadata_bytes)
          (any (λ m. is_repeated (keys m)) (loads raw).dicts) (loads raw).value d
          (Valid-budget d valid) (within-true (length raw) h.short)
          (Distinct-dicts (loads raw).dicts h.distinct) h.read
        ∙ valid,
  )
