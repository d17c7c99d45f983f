-- ===== src/Request/Members.antt =====
-- Dicts with a member set or with members left out.
use mcp_velociraptor.Text.{same_text, same_text_refl}
use mcp_velociraptor.Request.Document.{set_item, set_default, without_members, without}
use mcp_velociraptor.Protocol.Faults.{item}
use mcp_velociraptor.Request.{Library}
use text.Mathlib.Text.{◌==◌ as str_eq}
use mcp_velociraptor.Prelude.{
  none, Option, ◌∙◌, ap, Bool-cases, ◌≡◌, String, List, refl, if◌then◌else◌, true, false, some, inl,
  inr,
}
use mcp_velociraptor.Json.{
  get, find, contains, Members, Json, null, bool, int, negative, real, str, arr, obj, end, member,
  put,
}

pub find-put : (k : String) (w : Json) (m : Members) → find k (put k w m) ≡ some w
find-put k w end = rw (same_text_refl k) refl
find-put k w (member j v m) = elim (Bool-cases (str_eq j k)) [
  | inl e ↦ rw (e, e) refl
  | inr e ↦ rw (e, e) (find-put k w m)
]

pub find-put_other :
    (k j : String) (w : Json) (m : Members) → str_eq j k ≡ false → find k (put j w m) ≡ find k m
find-put_other k j w end h = rw h refl
find-put_other k j w (member i v m) h = elim (Bool-cases (str_eq i j)) [
  | inl e ↦
      let d : str_eq i k ≡ false = ap (λ t. str_eq t k) (same_text i j e) ∙ h in rw (e, d) refl
  | inr e ↦ rw e (ap (λ o. if str_eq i k then some v else o) (find-put_other k j w m h))
]

pub without-put :
    (names : List String) (k : String) (w : Json) (m : Members)
    → contains names k ≡ true
    → without_members names (put k w m) ≡ without_members names m
without-put names k w end h = rw h refl
without-put names k w (member j v m) h = elim (Bool-cases (str_eq j k)) [
  | inl e ↦
      let c : contains names j ≡ true = ap (contains names) (same_text j k e) ∙ h in rw (e, c) refl
  | inr e ↦
      rw e (ap (λ r. if contains names j then r else member j v r) (without-put names k w m h))
]

pub without-put_other :
    (names : List String) (k : String) (w : Json) (m : Members)
    → contains names k ≡ false
    → without_members names (put k w m) ≡ put k w (without_members names m)
without-put_other names k w end h = rw h refl
without-put_other names k w (member j v m) h = elim (Bool-cases (str_eq j k)) [
  | inl e ↦
      let c : contains names j ≡ false = ap (contains names) (same_text j k e) ∙ h in
      rw (e, c, e) refl
  | inr e ↦ elim (Bool-cases (contains names j)) [
    | inl c ↦ rw (e, c) (without-put_other names k w m h)
    | inr c ↦ rw (e, c, e) (ap (member j v) (without-put_other names k w m h))
  ]
]

-- the same of any value
abbrev pub or_null : Option Json → Json
or_null none = null
or_null (some v) = v

pub item-set_item : (k : String) (w : Json) (m : Members) → item k (set_item k w (obj m)) ≡ w
item-set_item k w m = ap or_null (find-put k w m)

pub item-set_item_other :
    (k j : String) (w d : Json) → str_eq j k ≡ false → item k (set_item j w d) ≡ item k d
item-set_item_other k j w (obj m) h = ap or_null (find-put_other k j w m h)
item-set_item_other k j w null h = refl
item-set_item_other k j w (bool b) h = refl
item-set_item_other k j w (int n) h = refl
item-set_item_other k j w (negative n) h = refl
item-set_item_other k j w (real t) h = refl
item-set_item_other k j w (str t) h = refl
item-set_item_other k j w (arr xs) h = refl

pub without-set_item :
    (names : List String) (k : String) (w d : Json)
    → contains names k ≡ true
    → without names (set_item k w d) ≡ without names d
without-set_item names k w (obj m) h = ap obj (without-put names k w m h)
without-set_item names k w null h = refl
without-set_item names k w (bool b) h = refl
without-set_item names k w (int n) h = refl
without-set_item names k w (negative n) h = refl
without-set_item names k w (real t) h = refl
without-set_item names k w (str t) h = refl
without-set_item names k w (arr xs) h = refl

pub without-set_item_other :
    (names : List String) (k : String) (w d : Json)
    → contains names k ≡ false
    → without names (set_item k w d) ≡ set_item k w (without names d)
without-set_item_other names k w (obj m) h = ap obj (without-put_other names k w m h)
without-set_item_other names k w null h = refl
without-set_item_other names k w (bool b) h = refl
without-set_item_other names k w (int n) h = refl
without-set_item_other names k w (negative n) h = refl
without-set_item_other names k w (real t) h = refl
without-set_item_other names k w (str t) h = refl
without-set_item_other names k w (arr xs) h = refl

pub without-set_default :
    (l : Library) (names : List String) (k : String) (w d : Json)
    → contains names k ≡ true
    → without names (set_default l k w d) ≡ without names d
without-set_default l names k w d h = of (get k d)
  where
    of :
        (o : Option Json)
        → without names (elim o [ none ↦ set_item k w d | some v ↦ d ]) ≡ without names d
    of none = without-set_item names k w d h
    of (some v) = refl
