-- ===== src/Wire/Headers.antt =====
-- `one_header` and `request_headers` of velo_transfer/wire.py, on the bytes of names and values.
-- Each error of the two is the same one, so they give a value or none.
use mcp_velociraptor.Wire.Frame.{chunk_limit}
use mcp_velociraptor.Text.{codes, is_digit, is_hex_digit}
use mcp_velociraptor.Prelude.{
  any, not, ◌-◌, ◌||◌, map, ltb, ◌==◌, ◌+◌, ◌*◌, ◌∷◌, length, leb, if◌then◌else◌, all, [], ◌&&◌, ℕ,
  Option, List, Bool, true, false, some, none,
}

abbrev pub Headers : Type 0
Headers = List (List ℕ × List ℕ)

unfoldable pub and_then : {A B : Type 0} → Option A → (A → Option B) → Option B
and_then none f = none
and_then (some a) f = f a

unfoldable pub only_if : {A : Type 0} → Bool → Option A → Option A
only_if true o = o
only_if false o = none

-- `bytes.lower`
abbrev lower : ℕ → ℕ
lower c = if leb b'A' c && leb c b'Z' then c + 32 else c

abbrev same_codes : List ℕ → List ℕ → Bool
same_codes [] [] = true
same_codes (c ∷ cs) (d ∷ ds) = (c == d) && same_codes cs ds
same_codes _ _ = false

-- the values of the headers with the name
abbrev pub values_of : List ℕ → Headers → List (List ℕ)
values_of name [] = []
values_of name ((k, v) ∷ hs) =
    if same_codes (map lower k) name then v ∷ values_of name hs else values_of name hs

-- what `str.strip` takes away, among the ASCII characters
abbrev is_space : ℕ → Bool
is_space c = (leb 9 c && leb c 13) || (leb 28 c && leb c 32)

abbrev ends_in_space : List ℕ → Bool
ends_in_space [] = false
ends_in_space (c ∷ []) = is_space c
ends_in_space (c ∷ d ∷ cs) = ends_in_space (d ∷ cs)

abbrev starts_with_space : List ℕ → Bool
starts_with_space [] = true
starts_with_space (c ∷ cs) = is_space c

abbrev pub is_value : List ℕ → Bool
is_value v =
    all (λ c. ltb c 128) v
    && not (starts_with_space v)
    && not (ends_in_space v)
    && not (any (λ c. c == b',') v)

unfoldable pub only_value : List (List ℕ) → Option (List ℕ)
only_value (v ∷ []) = only_if (is_value v) (some v)
only_value _ = none

-- `one_header`, where the header is required
unfoldable pub one_header : List ℕ → Headers → Option (List ℕ)
one_header name hs = only_value (values_of name hs)

-- `one_header(..., required=False) is None`; a header that is there is an error, by itself or later
abbrev pub is_absent : List ℕ → Headers → Bool
is_absent name hs = elim (values_of name hs) [ [] ↦ true | _ ∷ _ ↦ false ]

pub data Direction : Type 0 where
  push pull : Direction

abbrev pub direction_of : List ℕ → Option Direction
direction_of v =
    if same_codes v (codes "push")
    then some push
    else if same_codes v (codes "pull")
    then some pull
    else none

abbrev pub is_decimal : List ℕ → Bool
is_decimal [] = false
is_decimal (c ∷ []) = is_digit c
is_decimal (c ∷ d ∷ cs) = leb b'1' c && is_digit c && all is_digit (d ∷ cs)

-- `int(raw)` of decimal digits, after the number of the digits before
abbrev pub int_of : ℕ → List ℕ → ℕ
int_of n [] = n
int_of n (c ∷ cs) = int_of (n * 10 + (c - b'0')) cs

-- the number of a header, within limits; the second one may be missing
unfoldable pub number_header : List ℕ → ℕ → Option ℕ → Headers → Option ℕ
number_header name low high hs = and_then (one_header name hs) (λ raw.
    only_if (leb (length raw) 128 && is_decimal raw) (
      only_if
        (leb low (int_of 0 raw)
          && elim high [ none ↦ true | some limit ↦ leb (int_of 0 raw) limit ])
        (some (int_of 0 raw))))

pub record ChunkRequest : Type 0 where
  pub direction : Direction
  pub transfer_id : List ℕ
  pub request_digest : List ℕ
  pub offset : ℕ
  pub counts : Option (ℕ × ℕ)

abbrev pub per_chunk : List ℕ
per_chunk = codes "x-velo-count-per-chunk"

abbrev pub chunks : List ℕ
chunks = codes "x-velo-chunk-count"

-- the bytes of each chunk and their number, of a pull
abbrev pub counts_of : Direction → Headers → Option (Option (ℕ × ℕ))
counts_of push hs = only_if (is_absent per_chunk hs && is_absent chunks hs) (some none)
counts_of pull hs =
    and_then (number_header per_chunk 1 (some chunk_limit) hs)
      (λ n. and_then (number_header chunks 1 (some 64) hs) (λ m. some (some (n, m))))

abbrev pub is_digest_value : List ℕ → Bool
is_digest_value v = (length v == 64) && all is_hex_digit v

unfoldable pub request_headers : Headers → Option ChunkRequest
request_headers hs = and_then (one_header (codes "x-velo-direction") hs) (λ v.
    and_then (direction_of v) (λ d. and_then (one_header (codes "x-velo-transfer-id") hs) (λ t.
      and_then (one_header (codes "x-velo-request-digest") hs) (λ g.
        only_if (leb 1 (length t) && leb (length t) 128) (
          only_if (is_digest_value g) (
            and_then (number_header (codes "x-velo-offset") 0 none hs) (λ o.
              and_then (counts_of d hs) (λ c. some (record {
                direction = d;
                transfer_id = t;
                request_digest = g;
                offset = o;
                counts = c;
              })))))))))
