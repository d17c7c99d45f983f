-- ===== src/Host/Facts.antt =====
-- `_phase_data` of velo_transfer/host_journal.py, about the facts that a history of saves keeps.
use mcp_velociraptor.Protocol.Faults.{item, first, is_true}
use mcp_velociraptor.Wire.Frame.{same_bytes_iff}
use mcp_velociraptor.Json.{Json, null, bool, int, negative, real, str, arr, obj}
use mcp_velociraptor.Prelude.{
  sym, ◌∙◌, arith, ap, ◌||◌, not, all, Option-cases, Bool-cases, All, ◌≡◌, String, Bool, ℕ, List,
  inl, inr, [], ◌∷◌,
}
use mcp_velociraptor.Host.Phases.{
  completion_check, kept_checks, has_key, form_checks, same_fact, saves, phase_data, is_nothing,
  immutable, after,
}
use mcp_velociraptor.Json.Proper.{both}
use mcp_velociraptor.Protocol.Checks.{first-All, expect-true}
use mcp_velociraptor.Prelude.{refl, true, false, none}

module _ (canonical_json : Json → List ℕ) where
  abbrev KeepsFact : Json → Json → String → Type 0
  KeepsFact p q key =
      is_nothing (item key p) ≡ false
      → (is_nothing (item key q) ≡ false)
        × (canonical_json (item key q) ≡ canonical_json (item key p))

  -- What the second document keeps of the first one.
  pub record HasKept (p q : Json) : Type 0 where
    pub published :
        is_true (item "published_ever" p) ≡ true → is_true (item "published_ever" q) ≡ true
    pub begun :
        is_true (item "begin_attempted" p) ≡ true → is_true (item "begin_attempted" q) ≡ true
    pub facts : All (KeepsFact p q) immutable

  -- only null has the text of null
  abbrev pub TellsNull : Type 0
  TellsNull = (v : Json) → canonical_json v ≡ canonical_json null → v ≡ null

  implied : (x y : Bool) → not x || y ≡ true → x ≡ true → y ≡ true
  implied x y h k = ground arith

  either-fact : (x y : Bool) → x || y ≡ true → x ≡ false → y ≡ true
  either-fact x y h k = ground arith

  nothing-null : (v : Json) → is_nothing v ≡ true → v ≡ null
  nothing-null null h = refl
  nothing-null (bool b) h = cc h
  nothing-null (int n) h = cc h
  nothing-null (negative n) h = cc h
  nothing-null (real s) h = cc h
  nothing-null (str s) h = cc h
  nothing-null (arr xs) h = cc h
  nothing-null (obj m) h = cc h

  -- a value with the text of one that is something is something
  something :
      TellsNull
      → (v w : Json) → canonical_json v ≡ canonical_json w
      → is_nothing v ≡ false
      → is_nothing w ≡ false
  something tells v w e h = elim (Bool-cases (is_nothing w)) [
    | inr k ↦ k
    | inl k ↦ cc (h, ap is_nothing (tells v (e ∙ ap canonical_json (nothing-null w k))))
  ]

  same_fact-KeepsFact :
      TellsNull
      → (p q : Json) (key : String) → same_fact canonical_json p q key ≡ true
      → KeepsFact p q key
  same_fact-KeepsFact tells p q key h some_fact =
      let kept = either-fact (is_nothing (item key p)) _ h some_fact in
      let (_, e) = both (has_key key q) _ kept in
      let same = (same_bytes_iff (canonical_json (item key p)) (canonical_json (item key q))).0 e in
      (something tells (item key p) (item key q) same some_fact, sym same)

  all-All :
      (f : String → Bool) (P : String → Type 0) (ks : List String)
      → ((k : String) → f k ≡ true → P k)
      → all f ks ≡ true
      → All P ks
  all-All f P [] g h = tt
  all-All f P (k ∷ ks) g h = let (e, e') = both (f k) (all f ks) h in (g k e, all-All f P ks g e')

  All-trans :
      (p q r : Json) (ks : List String)
      → All (KeepsFact p q) ks
      → All (KeepsFact q r) ks
      → All (KeepsFact p r) ks
  All-trans p q r [] h k = tt
  All-trans p q r (x ∷ xs) (h, hs) (k, ks) =
      (λ e. let (f, g) = h e in let (f', g') = k f in (f', g' ∙ g), All-trans p q r xs hs ks)

  All-self : (p : Json) (ks : List String) → All (KeepsFact p p) ks
  All-self p [] = tt
  All-self p (x ∷ xs) = (λ e. (e, refl), All-self p xs)

  save-HasKept :
      TellsNull → (p q : Json) → phase_data canonical_json (after p) q ≡ none → HasKept p q
  unfolding phase_data
  save-HasKept tells p q h =
      let (_, (kept, _)) =
        first-All
          (first (form_checks q) ∷ first (kept_checks canonical_json p q) ∷ completion_check q ∷ [])
          h in
      let (published, (begun, (_, (facts, _)))) = first-All (kept_checks canonical_json p q) kept in
      record {
        published = implied _ _ (expect-true _ "published_fact_lost" published);
        begun = implied _ _ (expect-true _ "begin_fact_lost" begun);
        facts =
            all-All (same_fact canonical_json p q) (KeepsFact p q) immutable
              (same_fact-KeepsFact tells p q) (expect-true _ "immutable_fact_changed" facts);
      }

  HasKept-trans : (p q r : Json) → HasKept p q → HasKept q r → HasKept p r
  HasKept-trans p q r h k = record {
    published = λ e. k.published (h.published e);
    begun = λ e. k.begun (h.begun e);
    facts = All-trans p q r immutable h.facts k.facts;
  }

  -- However often the host saves, and whatever it tries to save: a published transfer stays
  -- published, an attempt to begin stays noted, and each receipt, binding, request or intent that
  -- was there stays the same; where the canonical text tells null from other values.
  pub saves-HasKept :
      TellsNull → (docs : List Json) (p : Json) → HasKept p (saves canonical_json docs p)
  unfolding saves
  saves-HasKept tells [] p = record {
    published = λ e. e;
    begun = λ e. e;
    facts = All-self p immutable;
  }
  saves-HasKept tells (doc ∷ docs) p =
      elim (Option-cases (phase_data canonical_json (after p) doc)) [
        | inl e ↦
            rw e (HasKept-trans p doc _ (save-HasKept tells p doc e) (saves-HasKept tells docs doc))
        | inr (fault, e) ↦ rw e (saves-HasKept tells docs p)
      ]
