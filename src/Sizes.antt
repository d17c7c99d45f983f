-- ===== src/Sizes.antt =====
-- `_validate_json` of velo_transfer/storage.py: the size of a value in canonical JSON, its nodes and
-- its depth, counted before it is encoded.
use mcp_velociraptor.Prelude.{
  ltb, ◌||◌, ◌*◌, some, ◌^◌, [], ◌==◌, ◌-◌, ◌&&◌, ◌∷◌, not, none, length, leb, if◌then◌else◌, Bool,
  ◌+◌, ℕ, String, Option, List,
}
pub mod Measure
pub mod Written
pub mod Rules
pub mod Exact
mod Tests
use mcp_velociraptor.Proc.{Proc, gets, modify, pure, ◌>>=◌, ◌>>◌}
use mcp_velociraptor.Protocol.Faults.{Fault, demand, expect, failing}
use mcp_velociraptor.Text.{codes}
use mcp_velociraptor.Json.{
  Json, Items, Members, null, bool, int, negative, real, str, arr, obj, nil, cons, end, member,
  keys, items,
}

-- `used` and `nodes`
pub record Meter : Type 0 where
  pub used : ℕ
  pub nodes : ℕ

abbrev pub Metering : Type 0
Metering = Proc Meter Fault (Unit {0})

-- The limits, and the text that `str` gives an integer and `repr` a real (none where `str` raises, or
-- where the real is not finite).
pub record Limits : Type 0 where
  pub max_bytes : ℕ
  pub max_nodes : ℕ
  pub max_depth : ℕ
  pub number_text : Json → Option (List ℕ)

abbrev pub number_length : Limits → Json → Option ℕ
number_length l v = elim (l.number_text v) [ none ↦ none | some t ↦ some (length t) ]

-- the bytes of a character in a text
abbrev pub char_size : ℕ → ℕ
char_size c =
    if (c == 34) || (c == 92) || (c == 8) || (c == 12) || (c == 10) || (c == 13) || (c == 9)
    then 2
    else if ltb c 32
    then 6
    else if ltb c 128
    then 1
    else if ltb c 2048
    then 2
    else if ltb c 65536
    then 3
    else 4

abbrev pub is_surrogate : ℕ → Bool
is_surrogate c = leb 55296 c && leb c 57343

abbrev pub member_count : Members → ℕ
member_count m = length (keys m)

abbrev pub item_count : Items → ℕ
item_count xs = length (items xs)

-- the commas of a list of so many items, and its two brackets
abbrev pub brackets : ℕ → ℕ
brackets n = 2 + (n - 1)

-- `item.bit_length() > max_bytes * 4`, of the magnitude
abbrev pub is_wide : ℕ → ℕ → Bool
is_wide max_bytes n = leb (2 ^ (max_bytes * 4)) n

module _ (l : Limits) where
  unfoldable pub charge : ℕ → Metering
  charge amount = do
    modify (λ m. record m { used = m.used + amount })
    m ← gets (λ m. m)
    demand (expect (leb m.used l.max_bytes) "state_budget_exceeded")

  unfoldable pub chars : List ℕ → Metering
  chars [] = pure tt
  chars (c ∷ cs) = do
    demand (expect (not (is_surrogate c)) "invalid_state")
    charge (char_size c)
    chars cs

  -- `string_size`
  abbrev pub string_size : String → Metering
  string_size s = charge 2 >> chars (codes s)

  -- the start of `visit`
  unfoldable pub enter : ℕ → Metering
  enter depth = do
    modify (λ m. record m { nodes = m.nodes + 1 })
    m ← gets (λ m. m)
    demand (expect (leb m.nodes l.max_nodes && leb depth l.max_depth) "state_budget_exceeded")

  -- a dict or a list of so many children
  unfoldable pub open_children : ℕ → Metering
  open_children n = do
    m ← gets (λ m. m)
    demand (expect (leb n (l.max_nodes - m.nodes)) "state_budget_exceeded")
    charge (brackets n)

  abbrev pub charge_text : Option ℕ → String → Metering
  charge_text o code = elim o [ none ↦ demand (some (failing code)) | some n ↦ charge n ]

  abbrev pub integer : ℕ → Json → Metering
  integer magnitude v = do
    demand (expect (not (is_wide l.max_bytes magnitude)) "state_budget_exceeded")
    charge_text (number_length l v) "state_budget_exceeded"

  unfoldable mutual
    pub visit : Json → ℕ → Metering
    visit null depth = enter depth >> charge 4
    visit (bool b) depth = enter depth >> charge (if b then 4 else 5)
    visit (int n) depth = enter depth >> integer n (int n)
    visit (negative n) depth = enter depth >> integer (n + 1) (negative n)
    visit (real s) depth = enter depth >> charge_text (number_length l (real s)) "invalid_state"
    visit (str s) depth = enter depth >> string_size s
    visit (arr xs) depth =
        enter depth >> (open_children (item_count xs) >> visit_items xs (depth + 1))
    visit (obj m) depth =
        enter depth >> (open_children (member_count m) >> visit_members m (depth + 1))

    pub visit_items : Items → ℕ → Metering
    visit_items nil depth = pure tt
    visit_items (cons x xs) depth = visit x depth >> visit_items xs depth

    pub visit_members : Members → ℕ → Metering
    visit_members end depth = pure tt
    visit_members (member k v m) depth =
        string_size k >> (charge 1 >> (visit v depth >> visit_members m depth))

  -- `_validate_json`
  unfoldable pub validate_json : Json → Metering
  validate_json v = modify (λ _. record { used = 0; nodes = 0 }) >> visit v 0
