-- ===== src/Wire/Requests.antt =====
-- `request_headers` of velo_transfer/wire.py, about the requests that it reads.
use mcp_velociraptor.Json.Proper.{both}
use mcp_velociraptor.Wire.Frame.{chunk_limit}
use mcp_velociraptor.Text.{codes}
use mcp_velociraptor.Wire.Headers.{
  direction_of, int_of, is_value, is_digest_value, is_decimal, chunks, per_chunk, values_of,
  only_value, is_absent, counts_of, only_if, and_then, ChunkRequest, request_headers, one_header,
  number_header, Headers, Direction, push, pull,
}
use mcp_velociraptor.Prelude.{
  sym, subst, arith, ap, leb, ◌≤◌, ◌∷◌, [], ◌≡◌, length, ℕ, Option, List, Bool, refl, true, false,
  some, none,
}

module _ {A B : Type 0} where
  then-some :
      (o : Option A) (f : A → Option B) (b : B)
      → and_then o f ≡ some b
      → (a : A) × (o ≡ some a) × (f a ≡ some b)
  unfolding and_then
  then-some none f b h = cc h
  then-some (some a) f b h = (a, refl, h)

if-some :
    {A : Type 0} (t : Bool) (o : Option A) (a : A)
    → only_if t o ≡ some a
    → (t ≡ true) × (o ≡ some a)
unfolding only_if
if-some true o a h = (refl, h)
if-some false o a h = cc h

-- The one header with the name has the value, and the value is fit for a header.
abbrev pub IsOnly : List ℕ → Headers → List ℕ → Type 0
IsOnly name hs v = (values_of name hs ≡ v ∷ []) × (is_value v ≡ true)

some-value : {A : Type 0} (a b : A) → some a ≡ some b → a ≡ b
some-value a b h = cc h

only_value-some :
    (vs : List (List ℕ)) (v : List ℕ) → only_value vs ≡ some v → (vs ≡ v ∷ []) × (is_value v ≡ true)
unfolding only_value
only_value-some [] v h = cc h
only_value-some (w ∷ u ∷ vs) v h = cc h
only_value-some (w ∷ []) v h =
    let (fine, e) = if-some _ _ v h in
    (ap (λ u. u ∷ []) (some-value w v e), subst (λ u. is_value u ≡ true) (some-value w v e) fine)

one_header-IsOnly :
    (name : List ℕ) (hs : Headers) (v : List ℕ) → one_header name hs ≡ some v → IsOnly name hs v
unfolding one_header
one_header-IsOnly name hs v h = only_value-some (values_of name hs) v h

-- The header has the number in decimal digits, at most 128 of them.
abbrev pub HasNumber : List ℕ → Headers → ℕ → Type 0
HasNumber name hs n =
    (raw : List ℕ) × IsOnly name hs raw
    × (length raw ≤ 128)
    × (is_decimal raw ≡ true)
    × (int_of 0 raw ≡ n)

le-of : (a b : ℕ) → leb a b ≡ true → a ≤ b
le-of a b h = ground arith

number-HasNumber :
    (name : List ℕ) (low : ℕ) (high : Option ℕ) (hs : Headers) (n : ℕ)
    → number_header name low high hs ≡ some n
    → HasNumber name hs n
      × (low ≤ n)
      × (elim high [ none ↦ true | some limit ↦ leb n limit ] ≡ true)
unfolding number_header
number-HasNumber name low high hs n h =
    let (raw, e, k) = then-some _ _ n h in
    let (shape, k₁) = if-some _ _ n k in
    let (limits, k₂) = if-some _ _ n k₁ in
    let same = some-value (int_of 0 raw) n k₂ in
    let (short, digits) = both (leb (length raw) 128) (is_decimal raw) shape in
    let (least, most) = both (leb low (int_of 0 raw)) _ limits in
    (
      (raw, one_header-IsOnly name hs raw e, le-of (length raw) 128 short, digits, same),
      subst (λ m. low ≤ m) same (le-of low (int_of 0 raw) least),
      subst (λ m. elim high [ none ↦ true | some limit ↦ leb m limit ] ≡ true) same most,
    )

-- the counts that the direction asks for
abbrev pub HasCounts : Direction → Headers → Option (ℕ × ℕ) → Type 0
HasCounts push hs c = (c ≡ none) × (values_of per_chunk hs ≡ []) × (values_of chunks hs ≡ [])
HasCounts pull hs c =
    (n : ℕ) × (m : ℕ) × (c ≡ some (n, m))
    × HasNumber per_chunk hs n
    × HasNumber chunks hs m
    × (1 ≤ n)
    × (n ≤ chunk_limit)
    × (1 ≤ m)
    × (m ≤ 64)

pub record IsRead (hs : Headers) (r : ChunkRequest) : Type 0 where
  pub direction_only :
      (v : List ℕ) × IsOnly (codes "x-velo-direction") hs v × (direction_of v ≡ some r.direction)
  pub transfer_only : IsOnly (codes "x-velo-transfer-id") hs r.transfer_id
  pub transfer_in : (1 ≤ length r.transfer_id) × (length r.transfer_id ≤ 128)
  pub digest_only : IsOnly (codes "x-velo-request-digest") hs r.request_digest
  pub digest_fine : is_digest_value r.request_digest ≡ true
  pub offset_number : HasNumber (codes "x-velo-offset") hs r.offset
  pub has_counts : HasCounts r.direction hs r.counts

none-of : (vs : List (List ℕ)) → elim vs [ [] ↦ true | _ ∷ _ ↦ false ] ≡ true → vs ≡ []
none-of [] h = refl
none-of (v ∷ vs) h = cc h

absent-none : (name : List ℕ) (hs : Headers) → is_absent name hs ≡ true → values_of name hs ≡ []
absent-none name hs h = none-of (values_of name hs) h

counts-HasCounts :
    (d : Direction) (hs : Headers) (c : Option (ℕ × ℕ)) → counts_of d hs ≡ some c → HasCounts d hs c
counts-HasCounts push hs c h =
    let (t, e) = if-some _ _ c h in
    let (a, b) = both (is_absent per_chunk hs) (is_absent chunks hs) t in
    (sym (some-value none c e), absent-none per_chunk hs a, absent-none chunks hs b)
counts-HasCounts pull hs c h =
    let (n, e, k) = then-some _ _ c h in
    let (m, f, l) = then-some _ _ c k in
    let (x, low, high) = number-HasNumber per_chunk 1 (some chunk_limit) hs n e in
    let (y, low₂, high₂) = number-HasNumber chunks 1 (some 64) hs m f in
    (
      n,
      m,
      sym (some-value (some (n, m)) c l),
      x,
      y,
      low,
      le-of n chunk_limit high,
      low₂,
      le-of m 64 high₂,
    )

-- What `request_headers` reads stands in the headers: the direction and each field in the one header of its name, the
-- identifier with 1 to 128 characters, the digest with 64 hex digits, the offset and the counts in
-- decimal digits; a pull has its counts within the limits, and a push has no header for them.
pub request_headers-IsRead :
    (hs : Headers) (r : ChunkRequest) → request_headers hs ≡ some r → IsRead hs r
unfolding request_headers
request_headers-IsRead hs r h =
    let (v, way, h₁) = then-some _ _ r h in
    let (d, is_way, h₂) = then-some _ _ r h₁ in
    let (t, transfer, h₃) = then-some _ _ r h₂ in
    let (g, digest, h₄) = then-some _ _ r h₃ in
    let (size, h₅) = if-some _ _ r h₄ in
    let (hex, h₆) = if-some _ _ r h₅ in
    let (o, offset, h₇) = then-some _ _ r h₆ in
    let (c, counts, h₈) = then-some _ _ r h₇ in
    let (least, most) = both (leb 1 (length t)) (leb (length t) 128) size in
    subst (IsRead hs) (some-value _ r h₈) (record {
      direction_only = (v, one_header-IsOnly (codes "x-velo-direction") hs v way, is_way);
      transfer_only = one_header-IsOnly (codes "x-velo-transfer-id") hs t transfer;
      transfer_in = (le-of 1 (length t) least, le-of (length t) 128 most);
      digest_only = one_header-IsOnly (codes "x-velo-request-digest") hs g digest;
      digest_fine = hex;
      offset_number = (number-HasNumber (codes "x-velo-offset") 0 none hs o offset).0;
      has_counts = counts-HasCounts d hs c counts;
    })
