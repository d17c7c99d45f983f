-- ===== src/Sizes/Measure.antt =====
-- The size of a value in canonical JSON, its nodes and its depth, as functions of the value, which
-- velo_transfer/storage.py counts while it walks.
use mcp_velociraptor.Text.{codes}
use mcp_velociraptor.Sizes.{number_length, member_count, item_count, brackets, char_size, Limits}
use mcp_velociraptor.Json.{
  Members, Items, Json, null, bool, int, negative, real, str, arr, obj, nil, cons, end, member,
}
use mcp_velociraptor.Prelude.{
  ◌*◌, ◌||◌, ◌^◌, ltb, if◌then◌else◌, [], ◌&&◌, true, leb, false, ◌∷◌, Bool, ◌+◌, ℕ, String, Option,
  List, none, some,
}

abbrev pub chars_size : List ℕ → ℕ
chars_size [] = 0
chars_size (c ∷ cs) = char_size c + chars_size cs

abbrev pub text_size : String → ℕ
text_size s = 2 + chars_size (codes s)

-- a code point that UTF-8 can encode
abbrev pub is_scalar : ℕ → Bool
is_scalar c = ltb c 55296 || ltb 57343 c

-- a magnitude of at most four bits for each byte of the limit
abbrev pub is_narrow : ℕ → ℕ → Bool
is_narrow max_bytes n = ltb n (2 ^ (max_bytes * 4))

abbrev pub are_chars : List ℕ → Bool
are_chars [] = true
are_chars (c ∷ cs) = is_scalar c && are_chars cs

abbrev pub length_or_zero : Option ℕ → ℕ
length_or_zero none = 0
length_or_zero (some n) = n

abbrev pub has_length : Option ℕ → Bool
has_length none = false
has_length (some n) = true

unfoldable mutual
  pub nodes : Json → ℕ
  nodes (arr xs) = 1 + items_nodes xs
  nodes (obj m) = 1 + members_nodes m
  nodes _ = 1

  pub items_nodes : Items → ℕ
  items_nodes nil = 0
  items_nodes (cons x xs) = nodes x + items_nodes xs

  pub members_nodes : Members → ℕ
  members_nodes end = 0
  members_nodes (member k v m) = nodes v + members_nodes m

module _ (l : Limits) where
  unfoldable mutual
    pub size : Json → ℕ
    size null = 4
    size (bool b) = if b then 4 else 5
    size (str s) = text_size s
    size (arr xs) = brackets (item_count xs) + items_size xs
    size (obj m) = brackets (member_count m) + members_size m
    size (int n) = length_or_zero (number_length l (int n))
    size (negative n) = length_or_zero (number_length l (negative n))
    size (real s) = length_or_zero (number_length l (real s))

    pub items_size : Items → ℕ
    items_size nil = 0
    items_size (cons x xs) = size x + items_size xs

    pub members_size : Members → ℕ
    members_size end = 0
    members_size (member k v m) = text_size k + (1 + (size v + members_size m))

  -- The value has texts and numbers that can be written, and lies within the depth, if it starts at
  -- the given one.
  unfoldable mutual
    pub is_sound : Json → ℕ → Bool
    is_sound null depth = leb depth l.max_depth
    is_sound (bool b) depth = leb depth l.max_depth
    is_sound (str s) depth = leb depth l.max_depth && are_chars (codes s)
    is_sound (int n) depth =
        leb depth l.max_depth && (is_narrow l.max_bytes n && has_length (number_length l (int n)))
    is_sound (negative n) depth =
        leb depth l.max_depth
        && (is_narrow l.max_bytes (n + 1) && has_length (number_length l (negative n)))
    is_sound (real s) depth = leb depth l.max_depth && has_length (number_length l (real s))
    is_sound (arr xs) depth = leb depth l.max_depth && are_items_sound xs (depth + 1)
    is_sound (obj m) depth = leb depth l.max_depth && are_members_sound m (depth + 1)

    pub are_items_sound : Items → ℕ → Bool
    are_items_sound nil depth = true
    are_items_sound (cons x xs) depth = is_sound x depth && are_items_sound xs depth

    pub are_members_sound : Members → ℕ → Bool
    are_members_sound end depth = true
    are_members_sound (member k v m) depth =
        are_chars (codes k) && (is_sound v depth && are_members_sound m depth)
