-- ===== src/Request/Spec.antt =====
-- `_read_spec` of velo_transfer/request.py: the reading of a file that nobody changes meanwhile.
use mcp_velociraptor.Json.Proper.{both}
use mcp_velociraptor.Request.Accepted.{and_then-inversion}
use mcp_velociraptor.Request.Document.{and_then}
use mcp_velociraptor.Protocol.Faults.{failing, Fault}
use mcp_velociraptor.Prelude.{
  ◌∙◌, ==_iff, subst, ◌≤◌, length, ◌⊎◌, ◌≡◌, leb, ◌^◌, ◌==◌, ◌&&◌, ℕ, String, Option, List, Bool,
  refl, if◌then◌else◌, true, false, none, some, [], ◌∷◌, inl, inr, arith,
}

-- `os.stat_result`, as far as it is asked
pub record Stat : Type 0 where
  pub is_link : Bool
  pub is_regular : Bool
  pub links : ℕ
  pub device : ℕ
  pub inode : ℕ
  pub size : ℕ
  pub mtime_ns : ℕ

-- What the calls of the system give: the parents from the root on, the file before it is opened,
-- whether it opens, the open file, its first bytes, the open file and the path afterwards, and whether
-- it closes. None is an OSError.
pub record Disk : Type 0 where
  pub parents : List (Option Stat)
  pub before : Option Stat
  pub is_open : Bool
  pub opened : Option Stat
  pub raw : Option (List ℕ)
  pub final_opened : Option Stat
  pub final_path : Option Stat
  pub is_closed : Bool

abbrev pub max_spec_bytes : ℕ
max_spec_bytes = 2 ^ 20

-- `_identity`
abbrev pub same_identity : Stat → Stat → Bool
same_identity a b =
    (a.device == b.device)
    && (a.inode == b.inode)
    && (a.size == b.size)
    && (a.mtime_ns == b.mtime_ns)

abbrev known : {A : Type 0} → Option A → A ⊎ Fault
known none = inr (failing "spec_unavailable")
known (some a) = inl a

abbrev tested : Bool → String → Unit {0} ⊎ Fault
tested true code = inl tt
tested false code = inr (failing code)

abbrev no_links : List (Option Stat) → Unit {0} ⊎ Fault
no_links [] = inl tt
no_links (none ∷ ps) = inr (failing "spec_unavailable")
no_links (some s ∷ ps) =
    let rest = no_links ps in if s.is_link then inr (failing "invalid_spec_file") else rest

abbrev before_code : Stat → String
before_code s = if leb s.size max_spec_bytes then "invalid_spec_file" else "spec_too_large"

abbrev pub is_plain : Stat → Bool
is_plain s = s.is_regular && (s.links == 1)

-- the work on the open file
unfoldable pub read_open : Disk → Stat → List ℕ ⊎ Fault
read_open k before = and_then (known k.opened) λ o.
    and_then (tested (is_plain o && same_identity o before) "spec_changed") λ _.
      and_then (known k.raw) λ raw.
        and_then (tested (leb (length raw) max_spec_bytes) "spec_too_large") λ _.
          and_then (known k.final_opened) λ f. and_then (known k.final_path) λ p.
            and_then
              (tested
                ((f.links == 1)
                  && (p.links == 1)
                  && same_identity f before
                  && same_identity p before)
                "spec_changed")
              λ _. inl raw

-- the `finally` that closes the file
abbrev closed : Bool → List ℕ ⊎ Fault → List ℕ ⊎ Fault
closed true r = r
closed false r = inr (failing "spec_unavailable")

-- `_read_spec`
unfoldable pub read_spec : Disk → List ℕ ⊎ Fault
read_spec k = and_then (no_links k.parents) λ _. and_then (known k.before) λ before.
    and_then (tested (is_plain before && leb before.size max_spec_bytes) (before_code before)) λ _.
      and_then (tested k.is_open "spec_unavailable") λ _. closed k.is_closed (read_open k before)

known-some : {A : Type 0} (x : Option A) (a : A) → known x ≡ inl a → x ≡ some a
known-some none a h = cc h
known-some (some b) a h = cc h

tested-true : (b : Bool) (code : String) (u : Unit {0}) → tested b code ≡ inl u → b ≡ true
tested-true true code u h = refl
tested-true false code u h = cc h

-- the file of the path was the same plain file all the time
pub record IsStable (k : Disk) (raw : List ℕ) : Type 0 where
  pub before : Stat
  pub opened : Stat
  pub after : Stat
  pub before_is : k.before ≡ some before
  pub opened_is : k.opened ≡ some opened
  pub after_is : k.final_path ≡ some after
  pub plain : is_plain before ≡ true
  pub same_opened : same_identity opened before ≡ true
  pub same_after : same_identity after before ≡ true
  pub one_link : after.links ≡ 1
  pub read : k.raw ≡ some raw
  pub small : length raw ≤ max_spec_bytes

read_open-IsStable :
    (k : Disk) (b : Stat) (raw : List ℕ)
    → k.before ≡ some b
    → is_plain b ≡ true
    → read_open k b ≡ inl raw
    → IsStable k raw
unfolding read_open
read_open-IsStable k b raw before_is plain h =
    let (o, (opened_is, h₁)) = and_then-inversion (known k.opened) _ raw h in
    let (_, (same_opened, h₂)) =
      and_then-inversion (tested (is_plain o && same_identity o b) "spec_changed") _ raw h₁ in
    let (r, (read, h₃)) = and_then-inversion (known k.raw) _ raw h₂ in
    let (_, (small, h₄)) =
      and_then-inversion (tested (leb (length r) max_spec_bytes) "spec_too_large") _ raw h₃ in
    let (f, (_, h₅)) = and_then-inversion (known k.final_opened) _ raw h₄ in
    let (p, (after_is, h₆)) = and_then-inversion (known k.final_path) _ raw h₅ in
    let links : Bool = (f.links == 1) && (p.links == 1) in
    let (_, (last, e)) =
      and_then-inversion (tested (links && same_identity f b && same_identity p b) "spec_changed") _
        raw h₆ in
    let (rest, same_after) =
      both (links && same_identity f b) (same_identity p b) (tested-true _ "spec_changed" _ last) in
    let (both_links, _) = both links (same_identity f b) rest in
    record {
      before = b;
      opened = o;
      after = p;
      before_is = before_is;
      opened_is = known-some k.opened o opened_is;
      after_is = known-some k.final_path p after_is;
      plain = plain;
      same_opened = (both (is_plain o) _ (tested-true _ "spec_changed" _ same_opened)).1;
      same_after = same_after;
      one_link = (==_iff p.links 1).0 (both (f.links == 1) (p.links == 1) both_links).1;
      read = known-some k.raw raw (read ∙ e);
      small = upto r raw (cc e) (tested-true _ "spec_too_large" _ small);
    }
  where
    upto :
        (r raw : List ℕ)
        → r ≡ raw
        → leb (length r) max_spec_bytes ≡ true
        → length raw ≤ max_spec_bytes
    upto r raw e h = subst (λ v. length v ≤ max_spec_bytes) e (at_most (length r) max_spec_bytes h)
      where
        at_most : (m n : ℕ) → leb m n ≡ true → m ≤ n
        at_most m n h = ground arith

closed-inversion :
    (c : Bool) (r : List ℕ ⊎ Fault) (raw : List ℕ) → closed c r ≡ inl raw → r ≡ inl raw
closed-inversion true r raw h = h
closed-inversion false r raw h = cc h

-- Where `_read_spec` returns, the path led to one file before it was opened and after it was read,
-- which is the file that was opened: regular, with one link, and with the same device, inode, size and
-- time; and the bytes are those that were read, within the limit.
pub read_spec-IsStable : (k : Disk) (raw : List ℕ) → read_spec k ≡ inl raw → IsStable k raw
unfolding read_spec
read_spec-IsStable k raw h =
    let (_, (_, h₁)) = and_then-inversion (no_links k.parents) _ raw h in
    let (b, (before_is, h₂)) = and_then-inversion (known k.before) _ raw h₁ in
    let (_, (plain, h₃)) =
      and_then-inversion (tested (is_plain b && leb b.size max_spec_bytes) (before_code b)) _ raw
        h₂ in
    let (_, (_, h₄)) = and_then-inversion (tested k.is_open "spec_unavailable") _ raw h₃ in
    read_open-IsStable k b raw (known-some k.before b before_is)
      (both (is_plain b) _ (tested-true _ (before_code b) _ plain)).0
      (closed-inversion k.is_closed (read_open k b) raw h₄)
