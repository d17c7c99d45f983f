-- ===== src/Json.antt =====
-- The values that `json.loads` gives and `json.dumps` takes, and what the program asks of them.
-- A number that is no integer is kept as its literal: the code that is modelled compares integers.
pub mod Same
pub mod Proper
use text.Mathlib.Text.{◌==◌ as str_eq}
use mcp_velociraptor.Prelude.{
  ℕ, zero, suc, String, Bool, true, false, not, ◌&&◌, Option, none, some, List, [], ◌∷◌, ◌==◌, any,
  all, if◌then◌else◌,
}

mutual
  pub data Json : Type 0 where
    null : Json
    bool : Bool → Json
    int : ℕ → Json
    -- the integer -(n + 1)
    negative : ℕ → Json
    real : String → Json
    str : String → Json
    arr : Items → Json
    obj : Members → Json

  pub data Items : Type 0 where
    nil : Items
    cons : Json → Items → Items

  pub data Members : Type 0 where
    end : Members
    member : String → Json → Members → Members

abbrev pub items : Items → List Json
items nil = []
items (cons x xs) = x ∷ items xs

-- the keys of a dict, in order
abbrev pub keys : Members → List String
keys end = []
keys (member k v m) = k ∷ keys m

-- `m.get(k)` of a dict; the parsers refuse a repeated key, so the first entry is the only one
abbrev pub find : String → Members → Option Json
find k end = none
find k (member j v m) = if str_eq j k then some v else find k m

-- `m[k] = v`
abbrev pub put : String → Json → Members → Members
put k v end = member k v end
put k v (member j w m) = if str_eq j k then member j v m else member j w (put k v m)

-- `value.get(k)`, where the value is a dict
abbrev pub get : String → Json → Option Json
get k (obj m) = find k m
get k _ = none

abbrev pub contains : List String → String → Bool
contains names k = any (λ n. str_eq n k) names

-- `type(value) is dict and set(value) == set(names)`
abbrev pub has_keys : List String → Json → Bool
has_keys names (obj m) = all (contains names) (keys m) && all (contains (keys m)) names
has_keys names _ = false

abbrev pub is_dict : Json → Bool
is_dict (obj m) = true
is_dict _ = false

-- `value == text`
abbrev pub is_text : String → Json → Bool
is_text t (str s) = str_eq s t
is_text t _ = false

-- `value == n`; in Python `True == 1`
abbrev pub is_number : ℕ → Json → Bool
is_number n (int m) = m == n
is_number n (bool true) = n == 1
is_number n (bool false) = n == 0
is_number n _ = false

-- `bool(value)`; a literal of a real is taken as true
abbrev pub truthy : Json → Bool
truthy null = false
truthy (bool b) = b
truthy (int zero) = false
truthy (int (suc n)) = true
truthy (negative n) = true
truthy (real s) = true
truthy (str s) = not (str_eq s "")
truthy (arr nil) = false
truthy (arr (cons x xs)) = true
truthy (obj end) = false
truthy (obj (member k v m)) = true
