-- ===== src/Sizes/Written.antt =====
-- The text of a value in JSON, which `json.dumps` writes for `canonical_json` of
-- velo_transfer/storage.py, but for the order of the keys: it stands beside the count of
-- `_validate_json`, and uses nothing of it.
use mcp_velociraptor.Text.{codes}
use mcp_velociraptor.Json.{
  Members, Items, Json, null, bool, int, negative, real, str, arr, obj, nil, cons, end, member,
}
use mcp_velociraptor.Sizes.Measure.{
  size, items_size, members_size, text_size, chars_size, length_or_zero,
}
use mcp_velociraptor.Sizes.{member_count, item_count, char_size, Limits}
use mcp_velociraptor.Prelude.{
  ◌-◌, ℕ, ◌+◌, ◌/◌, ◌%◌, ◌≡◌, ◌==◌, ltb, if◌then◌else◌, List, [], ◌∷◌, ◌++◌, length, Option, none,
  some, String, true, false, arith, length-append, refl,
}

-- the bytes of a code point in UTF-8
abbrev pub utf8 : ℕ → List ℕ
utf8 c =
    if ltb c 128
    then c ∷ []
    else if ltb c 2048
    then (192 + c / 64) ∷ (128 + c % 64) ∷ []
    else if ltb c 65536
    then (224 + c / 4096) ∷ (128 + c / 64 % 64) ∷ (128 + c % 64) ∷ []
    else (240 + c / 262144) ∷ (128 + c / 4096 % 64) ∷ (128 + c / 64 % 64) ∷ (128 + c % 64) ∷ []

abbrev hex_digit : ℕ → ℕ
hex_digit n = if ltb n 10 then b'0' + n else b'a' + n - 10

-- the bytes of a code point in a text
unfoldable pub escaped : ℕ → List ℕ
escaped c =
    if c == b'"'
    then b'\\' ∷ b'"' ∷ []
    else if c == b'\\'
    then b'\\' ∷ b'\\' ∷ []
    else if c == 8
    then b'\\' ∷ b'b' ∷ []
    else if c == 9
    then b'\\' ∷ b't' ∷ []
    else if c == 10
    then b'\\' ∷ b'n' ∷ []
    else if c == 12
    then b'\\' ∷ b'f' ∷ []
    else if c == 13
    then b'\\' ∷ b'r' ∷ []
    else if ltb c 32
    then b'\\' ∷ b'u' ∷ b'0' ∷ b'0' ∷ hex_digit (c / 16) ∷ hex_digit (c % 16) ∷ []
    else utf8 c

abbrev pub all_escaped : List ℕ → List ℕ
all_escaped [] = []
all_escaped (c ∷ cs) = escaped c ++ all_escaped cs

abbrev pub quoted : String → List ℕ
quoted s = b'"' ∷ all_escaped (codes s) ++ b'"' ∷ []

-- a key, its colon and what follows
unfoldable pub keyed : String → List ℕ → List ℕ
keyed k rest = quoted k ++ (b':' ∷ rest)

abbrev or_empty : Option (List ℕ) → List ℕ
or_empty none = []
or_empty (some t) = t

module _ (l : Limits) where
  unfoldable mutual
    pub text : Json → List ℕ
    text null = b'n' ∷ b'u' ∷ b'l' ∷ b'l' ∷ []
    text (bool true) = b't' ∷ b'r' ∷ b'u' ∷ b'e' ∷ []
    text (bool false) = b'f' ∷ b'a' ∷ b'l' ∷ b's' ∷ b'e' ∷ []
    text (str s) = quoted s
    text (arr nil) = b'[' ∷ b']' ∷ []
    text (arr (cons x xs)) = b'[' ∷ (text x ++ items_text xs) ++ b']' ∷ []
    text (obj end) = b'{' ∷ b'}' ∷ []
    text (obj (member k v m)) = b'{' ∷ keyed k (text v ++ members_text m) ++ b'}' ∷ []
    text (int n) = or_empty (l.number_text (int n))
    text (negative n) = or_empty (l.number_text (negative n))
    text (real s) = or_empty (l.number_text (real s))

    -- the items after the first one
    pub items_text : Items → List ℕ
    items_text nil = []
    items_text (cons x xs) = b',' ∷ text x ++ items_text xs

    -- the members after the first one
    pub members_text : Members → List ℕ
    members_text end = []
    members_text (member k v m) = b',' ∷ keyed k (text v ++ members_text m)

length-escaped : (c : ℕ) → length (escaped c) ≡ char_size c
unfolding escaped
length-escaped c = ground arith

length-all_escaped : (cs : List ℕ) → length (all_escaped cs) ≡ chars_size cs
length-all_escaped [] = refl
length-all_escaped (c ∷ cs) =
    omega
      (arith, length-append (escaped c) (all_escaped cs), length-escaped c, length-all_escaped cs)

length-quoted : (s : String) → length (quoted s) ≡ text_size s
length-quoted s =
    omega (arith, length-append (all_escaped (codes s)) (b'"' ∷ []), length-all_escaped (codes s))

length-keyed :
    (k : String) (rest : List ℕ) → length (keyed k rest) ≡ text_size k + (1 + length rest)
unfolding keyed
length-keyed k rest = omega (arith, length-append (quoted k) (b':' ∷ rest), length-quoted k)

module _ (l : Limits) where
  length-number :
      (o : Option (List ℕ))
      → length (or_empty o) ≡ length_or_zero (elim o [ none ↦ none | some t ↦ some (length t) ])
  length-number none = refl
  length-number (some t) = refl

  mutual
    unfolding text items_text members_text size items_size members_size

    -- `size` is the number of bytes of the text
    pub length-text : (v : Json) → length (text l v) ≡ size l v
    length-text null = refl
    length-text (bool true) = refl
    length-text (bool false) = refl
    length-text (str s) = length-quoted s
    length-text (int n) = length-number (l.number_text (int n))
    length-text (negative n) = length-number (l.number_text (negative n))
    length-text (real s) = length-number (l.number_text (real s))
    length-text (arr nil) = refl
    length-text (arr (cons x xs)) = omega (
      arith,
      length-append (text l x ++ items_text l xs) (b']' ∷ []),
      length-append (text l x) (items_text l xs),
      length-text x,
      length-items xs,
    )
    length-text (obj end) = refl
    length-text (obj (member k v m)) = omega (
      arith,
      length-append (keyed k (text l v ++ members_text l m)) (b'}' ∷ []),
      length-keyed k (text l v ++ members_text l m),
      length-append (text l v) (members_text l m),
      length-text v,
      length-members m,
    )

    length-items : (xs : Items) → length (items_text l xs) ≡ item_count xs + items_size l xs
    length-items nil = refl
    length-items (cons x xs) =
        omega (arith, length-append (text l x) (items_text l xs), length-text x, length-items xs)

    length-members : (m : Members) → length (members_text l m) ≡ member_count m + members_size l m
    length-members end = refl
    length-members (member k v m) = omega (
      arith,
      length-keyed k (text l v ++ members_text l m),
      length-append (text l v) (members_text l m),
      length-text v,
      length-members m,
    )
