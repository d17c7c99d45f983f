-- ===== src/Json/Same.antt =====
-- `==` of two values that `json.loads` gives. Two literals of reals are taken as equal where they
-- are the same text, and a real equals no integer.
use mcp_velociraptor.Json.{
  obj, arr, nil, cons, end, member, Items, find, null, keys, str, real, negative, int, bool,
  Members, Json,
}
use mcp_velociraptor.Prelude.{
  Option, none, some, ◌&&◌, not, false, ◌==◌, true, length, ℕ, String, Bool,
}
use text.Mathlib.Text.{◌==◌ as str_eq}
use mcp_velociraptor.Prelude.{if◌then◌else◌}

abbrev pub count : Members → ℕ
count m = length (keys m)

-- a Boolean is an integer too
abbrev same_bool : Bool → Json → Bool
same_bool b (bool c) = if b then c else not c
same_bool b (int n) = if b then n == 1 else n == 0
same_bool b _ = false

abbrev same_int : ℕ → Json → Bool
same_int n (int m) = n == m
same_int n (bool c) = if c then n == 1 else n == 0
same_int n _ = false

abbrev same_negative : ℕ → Json → Bool
same_negative n (negative m) = n == m
same_negative n _ = false

abbrev same_text : String → Json → Bool
same_text s (str t) = str_eq s t
same_text s _ = false

abbrev same_real : String → Json → Bool
same_real s (real t) = str_eq s t
same_real s _ = false

abbrev is_null : Json → Bool
is_null null = true
is_null _ = false

abbrev pub is_present : Option Json → Bool
is_present none = false
is_present (some v) = true

abbrev pub value_of : Option Json → Json
value_of none = null
value_of (some v) = v

unfoldable mutual
  pub same_json : Json → Json → Bool
  same_json null v = is_null v
  same_json (bool b) v = same_bool b v
  same_json (int n) v = same_int n v
  same_json (negative n) v = same_negative n v
  same_json (real s) v = same_real s v
  same_json (str s) v = same_text s v
  same_json (arr xs) (arr ys) = same_items xs ys
  same_json (arr xs) _ = false
  same_json (obj m) (obj n) = (count m == count n) && same_members m n
  same_json (obj m) _ = false

  pub same_items : Items → Items → Bool
  same_items nil nil = true
  same_items (cons x xs) (cons y ys) = same_json x y && same_items xs ys
  same_items _ _ = false

  -- each member of the first dict is in the second one
  pub same_members : Members → Members → Bool
  same_members end n = true
  same_members (member k v m) n =
      is_present (find k n) && (same_json v (value_of (find k n)) && same_members m n)
