-- ===== src/Json/Proper.antt =====
-- Values whose dicts have each key once, which are the values that there are.
use mcp_velociraptor.Json.{
  Json, Items, Members, null, bool, int, negative, real, str, arr, obj, nil, cons, end, member,
  find,
}
use mcp_velociraptor.Json.Same.{count, same_json, same_items, same_members}
use mcp_velociraptor.Text.{same_text, same_text_refl}
use text.Mathlib.Text.{◌==◌ as str_eq}
use mcp_velociraptor.Prelude.{
  inr, ap, inl, ◌==◌, ℕ, arith, Bool-cases, if◌then◌else◌, Bool, Option, some, true, false, is_none,
  ◌&&◌, ◌≡◌, refl, String,
}

unfoldable mutual
  pub is_proper : Json → Bool
  is_proper (arr xs) = proper_items xs
  is_proper (obj m) = proper_members m
  is_proper _ = true

  pub proper_items : Items → Bool
  proper_items nil = true
  proper_items (cons x xs) = is_proper x && proper_items xs

  pub proper_members : Members → Bool
  proper_members end = true
  proper_members (member k v m) = is_none (find k m) && (is_proper v && proper_members m)

-- each member of the first dict is the member of the second one with its key
abbrev IsWithin : Members → Members → Type 0
IsWithin end n = Unit {0}
IsWithin (member k v m) n = (find k n ≡ some v) × IsWithin m n

str_eq_swap : (s t : String) → str_eq s t ≡ false → str_eq t s ≡ false
str_eq_swap s t h = elim (Bool-cases (str_eq t s)) [
  | inl e ↦ cc (h, ap (λ v. str_eq v t) (same_text t s e), same_text_refl t)
  | inr e ↦ e
]

pub both : (x y : Bool) → x && y ≡ true → (x ≡ true) × (y ≡ true)
both true y h = (refl, h)
both false y h = cc h

not-none :
    (b : Bool) (v : Json) (o : Option Json)
    → is_none (if b then some v else o) ≡ true
    → (b ≡ false) × (is_none o ≡ true)
not-none false v o h = (refl, h)
not-none true v o h = cc h

member-IsWithin :
    (k : String) (v : Json) (m n : Members)
    → is_none (find k m) ≡ true
    → IsWithin m n
    → IsWithin m (member k v n)
member-IsWithin k v end n h w = tt
member-IsWithin k v (member j u m) n h (e, w) =
    let (f, g) = not-none (str_eq j k) u (find k m) h in
    (rw (str_eq_swap j k f) e, member-IsWithin k v m n g w)

self-IsWithin : (m : Members) → proper_members m ≡ true → IsWithin m m
unfolding proper_members
self-IsWithin end h = tt
self-IsWithin (member k v m) h =
    let (e, f) = both (is_none (find k m)) _ h in
    (
      rw (same_text_refl k) refl,
      member-IsWithin k v m m e (self-IsWithin m (both (is_proper v) _ f).1),
    )

count_refl : (n : ℕ) → n == n ≡ true
count_refl n = ground arith

mutual
  unfolding is_proper proper_items proper_members same_json same_items same_members

  pub same_json_refl : (v : Json) → is_proper v ≡ true → same_json v v ≡ true
  same_json_refl null h = refl
  same_json_refl (bool true) h = refl
  same_json_refl (bool false) h = refl
  same_json_refl (int n) h = ground arith
  same_json_refl (negative n) h = ground arith
  same_json_refl (real s) h = same_text_refl s
  same_json_refl (str s) h = same_text_refl s
  same_json_refl (arr xs) h = same_items_refl xs h
  same_json_refl (obj m) h =
      rw (same_members_refl m m h (self-IsWithin m h), count_refl (count m)) refl

  same_items_refl : (xs : Items) → proper_items xs ≡ true → same_items xs xs ≡ true
  same_items_refl nil h = refl
  same_items_refl (cons x xs) h =
      let (e, f) = both (is_proper x) (proper_items xs) h in
      rw (same_json_refl x e, same_items_refl xs f) refl

  same_members_refl :
      (m n : Members) → proper_members m ≡ true → IsWithin m n → same_members m n ≡ true
  same_members_refl end n h w = refl
  same_members_refl (member k v m) n h (e, w) =
      let (f, g) = both (is_proper v) _ (both (is_none (find k m)) _ h).1 in
      rw (e, same_json_refl v f, same_members_refl m n g w) refl
