-- ===== src/Sizes/Exact.antt =====
-- `_validate_json` of velo_transfer/storage.py, against the size, nodes and depth of the value.
use mcp_velociraptor.Sizes.Written.{length-text, text}
use mcp_velociraptor.Sizes.Rules.{
  zero_plus, open-IsExact, zero_zero, enter-IsExact, then-IsExact, test-IsExact, same-IsExact,
  pure-IsExact, charge-IsExact, shift, IsExact,
}
use mcp_velociraptor.Text.{codes}
use mcp_velociraptor.Sizes.Measure.{
  is_scalar, is_narrow, are_members_sound, are_items_sound, members_size, text_size, length_or_zero,
  items_size, is_sound, has_length, chars_size, size, are_chars, members_nodes, items_nodes,
}
use mcp_velociraptor.Sizes.{
  number_length, char_size, is_surrogate, is_wide, visit_members, member_count, item_count,
  visit_items, integer, charge_text, visit, validate_json, string_size, chars, brackets,
  open_children, enter, Metering, Meter, Limits,
}
use mcp_velociraptor.Proc.{◌>>◌, ◌>>=◌, ok}
use mcp_velociraptor.Sizes.Measure.{nodes}
use mcp_velociraptor.Prelude.{
  ◌*◌, ◌^◌, ltb, length, ap, if◌then◌else◌, [], ◌∷◌, ◌↔◌, not, List, Option, leb, String, ◌≤◌, ◌&&◌,
  ◌≡◌, arith, ◌+◌, ℕ, Bool, refl, none, some, true, false,
}
use mcp_velociraptor.Json.{
  Members, Items, Json, null, bool, int, negative, real, str, arr, obj, nil, cons, end, member,
}

scalar : (c : ℕ) → not (is_surrogate c) ≡ is_scalar c
scalar c = ground arith

narrow : (a n : ℕ) → not (leb a n) ≡ ltb n a
narrow a n = ground arith

module _ (l : Limits) where
  chars-IsExact : (cs : List ℕ) → IsExact l (chars l cs) (are_chars cs) (chars_size cs) 0
  unfolding chars
  chars-IsExact [] = pure-IsExact l
  chars-IsExact (c ∷ cs) =
      same-IsExact l
        (test-IsExact l (not (is_surrogate c)) "invalid_state"
          (then-IsExact l (charge-IsExact l (char_size c)) (chars-IsExact cs)))
        (ap (λ b. b && are_chars cs) (scalar c)) refl refl

  text-IsExact : (s : String) → IsExact l (string_size l s) (are_chars (codes s)) (text_size s) 0
  text-IsExact s = then-IsExact l (charge-IsExact l 2) (chars-IsExact (codes s))

  length-IsExact :
      (o : Option ℕ) (code : String)
      → IsExact l (charge_text l o code) (has_length o) (length_or_zero o) 0
  length-IsExact none code = record { returned = λ m t f h. cc h; returns = λ m good f. cc good }
  length-IsExact (some n) code = charge-IsExact l n

  integer-IsExact :
      (magnitude : ℕ) (v : Json)
      → IsExact l
          (integer l magnitude v)
          (is_narrow l.max_bytes magnitude && has_length (number_length l v))
          (length_or_zero (number_length l v))
          0
  integer-IsExact magnitude v =
      same-IsExact l
        (test-IsExact l (not (is_wide l.max_bytes magnitude)) "state_budget_exceeded"
          (length-IsExact (number_length l v) "state_budget_exceeded"))
        (ap (λ b. b && has_length (number_length l v)) (narrow (2 ^ (l.max_bytes * 4)) magnitude))
        refl refl

  -- each child is a node at least
  some_node : (v : Json) → 1 ≤ nodes v
  unfolding nodes
  some_node null = omega arith
  some_node (bool b) = omega arith
  some_node (int n) = omega arith
  some_node (negative n) = omega arith
  some_node (real s) = omega arith
  some_node (str s) = omega arith
  some_node (arr xs) = omega arith
  some_node (obj m) = omega arith

  items-le : (xs : Items) → item_count xs ≤ items_nodes xs
  unfolding items_nodes
  items-le nil = omega arith
  items-le (cons x xs) = omega (arith, some_node x, items-le xs)

  members-le : (m : Members) → member_count m ≤ members_nodes m
  unfolding members_nodes
  members-le end = omega arith
  members-le (member k v m) = omega (arith, some_node v, members-le m)

  -- a node without children
  leaf :
      (depth : ℕ) {r : Metering} {g : Bool} {a : ℕ}
      → IsExact l r g a 0
      → IsExact l (enter l depth >> r) (leb depth l.max_depth && g) a 1
  leaf depth {a = a} x =
      same-IsExact l (then-IsExact l (enter-IsExact l depth) x) refl (zero_plus l a) refl

  node :
      (depth c : ℕ) {r : Metering} {g : Bool} {a n : ℕ}
      → IsExact l r g a n
      → c ≤ n
      → IsExact l
          (enter l depth >> (open_children l c >> r))
          (leb depth l.max_depth && g)
          (brackets c + a)
          (1 + n)
  node depth c {a = a} x h =
      same-IsExact l (then-IsExact l (enter-IsExact l depth) (open-IsExact l c x h)) refl
        (zero_plus l (brackets c + a)) refl

  and_true : (b : Bool) → b && true ≡ b
  and_true true = refl
  and_true false = refl

  mutual
    unfolding visit visit_items visit_members size items_size members_size nodes items_nodes
        members_nodes is_sound are_items_sound are_members_sound

    visit-IsExact :
        (v : Json) (depth : ℕ)
        → IsExact l (visit l v depth) (is_sound l v depth) (size l v) (nodes v)
    visit-IsExact null depth =
        same-IsExact l (leaf depth (charge-IsExact l 4)) (and_true (leb depth l.max_depth)) refl
          refl
    visit-IsExact (bool b) depth =
        same-IsExact l (leaf depth (charge-IsExact l (if b then 4 else 5)))
          (and_true (leb depth l.max_depth)) refl refl
    visit-IsExact (int n) depth = leaf depth (integer-IsExact n (int n))
    visit-IsExact (negative n) depth = leaf depth (integer-IsExact (n + 1) (negative n))
    visit-IsExact (real s) depth =
        leaf depth (length-IsExact (number_length l (real s)) "invalid_state")
    visit-IsExact (str s) depth = leaf depth (text-IsExact s)
    visit-IsExact (arr xs) depth =
        node depth (item_count xs) (items-IsExact xs (depth + 1)) (items-le xs)
    visit-IsExact (obj m) depth =
        node depth (member_count m) (members-IsExact m (depth + 1)) (members-le m)

    items-IsExact :
        (xs : Items) (depth : ℕ)
        → IsExact l
            (visit_items l xs depth)
            (are_items_sound l xs depth)
            (items_size l xs)
            (items_nodes xs)
    items-IsExact nil depth = pure-IsExact l
    items-IsExact (cons x xs) depth =
        then-IsExact l (visit-IsExact x depth) (items-IsExact xs depth)

    members-IsExact :
        (m : Members) (depth : ℕ)
        → IsExact l
            (visit_members l m depth)
            (are_members_sound l m depth)
            (members_size l m)
            (members_nodes m)
    members-IsExact end depth = pure-IsExact l
    members-IsExact (member k v m) depth =
        same-IsExact l
          (then-IsExact l (text-IsExact k) (
            then-IsExact l (charge-IsExact l 1)
              (then-IsExact l (visit-IsExact v depth) (members-IsExact m depth))))
          refl refl (zero_zero l (nodes v + members_nodes m))

  -- `_validate_json` passes exactly the values whose texts can be encoded, whose numbers have a text
  -- and whose integers are below 2 ^ (4 * max_bytes) in magnitude, whose depth and nodes are within
  -- the limits, and whose text in JSON, written without spaces and in UTF-8, has at most `max_bytes`
  -- bytes.
  pub validate_json_iff :
      (v : Json) (m : Meter)
      → ((t : Meter) × (validate_json l v m ≡ ok tt t))
        ↔ ((is_sound l v 0 ≡ true) × (length (text l v) ≤ l.max_bytes) × (nodes v ≤ l.max_nodes))
  unfolding validate_json ◌>>=◌
  validate_json_iff v m =
      let e = visit-IsExact v 0 in
      (
        λ (t, h).
            let (good, (a, n), _) = e.returned none_yet t (omega arith, omega arith) h in
            (good, less_of (length-text l v) (omega arith), omega arith),
        λ (good, a, n). (
          shift none_yet (size l v) (nodes v),
          e.returns none_yet good
              (zero_less (size l v) l.max_bytes (less_size (length-text l v) a), omega arith),
        ),
      )
    where
      less_of : {x y z : ℕ} → x ≡ y → y ≤ z → x ≤ z
      less_of e h = omega arith

      less_size : {x y z : ℕ} → x ≡ y → x ≤ z → y ≤ z
      less_size e h = omega arith

      zero_less : (x z : ℕ) → x ≤ z → 0 + x ≤ z
      zero_less x z h = omega arith

      none_yet : Meter
      none_yet = record { used = 0; nodes = 0 }
