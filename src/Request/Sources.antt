-- ===== src/Request/Sources.antt =====
-- The loop over the sources in `_validate_document` of velo_transfer/request.py, beside
-- `_check_collisions` of velo_transfer/manifest.py.
use mcp_velociraptor.Protocol.Faults.{item, object, expect}
use mcp_velociraptor.Protocol.Checks.{expect-true, first-All}
use mcp_velociraptor.Wire.Frame.{same_bytes}
use mcp_velociraptor.Paths.Collisions.{
  not-true, not-false, expect-none, All-zip, All-imply, neither-false, neither, same_bytes-swap,
}
use mcp_velociraptor.Request.{side_path, path_of, sources_from, source_check, name, collides}
use mcp_velociraptor.Paths.Apart.{
  check_collisions_iff, AllApart, AllRelative, row-any, any-row, Apart,
}
use mcp_velociraptor.Json.{Json}
use mcp_velociraptor.Paths.{
  check_relative, check_collisions, is_relative, parents_of, is_in, Unicode,
}
use mcp_velociraptor.Json.{null, bool, int, negative, real, str, arr, obj}
use mcp_velociraptor.Prelude.{
  not, ◌↔◌, none, ◌∙◌, sym, ap, ◌||◌, ◌≡◌, map, All, ◌++◌, ℕ, any, List, Bool, refl, true, false,
  [], ◌∷◌,
}

any-append :
    {A : Type 0} (test : A → Bool) (xs ys : List A)
    → any test (xs ++ ys) ≡ any test xs || any test ys
any-append test [] ys = refl
any-append test (x ∷ xs) ys =
    ap (λ b. test x || b) (any-append test xs ys) ∙ or_assoc (test x) (any test xs) (any test ys)
  where
    or_assoc : (a b c : Bool) → a || (b || c) ≡ (a || b) || c
    or_assoc true b c = refl
    or_assoc false b c = refl

module _ (u : Unicode) where
  -- `parents` after these names
  abbrev pub parents : List (List ℕ) → List (List ℕ)
  parents [] = []
  parents (f ∷ fs) = parents_of u f ++ parents fs

  Apart-swap : (f g : List ℕ) → Apart u f g → Apart u g f
  Apart-swap f g h = (same_bytes-swap f g h.0, h.2, h.1)

  -- what the names that were seen have to do with a name
  seen-Apart :
      (fs : List (List ℕ)) (g : List ℕ)
      → is_in u fs g ≡ false
      → is_in u (parents fs) g ≡ false
      → All (λ f. is_in u (parents_of u g) f ≡ false) fs
      → All (Apart u g) fs
  seen-Apart [] g h k r = tt
  seen-Apart (f ∷ fs) g h k (r, rs) =
      let (e, h') = neither (same_bytes f g) (is_in u fs g) h in
      let (i, k') =
        neither (is_in u (parents_of u f) g) (is_in u (parents fs) g)
          (sym (any-append (λ n. same_bytes n g) (parents_of u f) (parents fs)) ∙ k) in
      ((same_bytes-swap f g e, r, i), seen-Apart fs g h' k' rs)

  Apart-seen :
      (fs : List (List ℕ)) (g : List ℕ)
      → All (Apart u g) fs
      → (is_in u fs g ≡ false)
        × (is_in u (parents fs) g ≡ false)
        × All (λ f. is_in u (parents_of u g) f ≡ false) fs
  Apart-seen [] g h = (refl, refl, tt)
  Apart-seen (f ∷ fs) g (a, h) =
      let (e, i, rs) = Apart-seen fs g h in
      (
        neither-false (same_bytes f g) (is_in u fs g) (same_bytes-swap g f a.0) e,
        any-append (λ n. same_bytes n g) (parents_of u f) (parents fs)
            ∙ neither-false (is_in u (parents_of u f) g) (is_in u (parents fs) g) a.2 i,
        (a.1, rs),
      )

  collides-Apart :
      (is_host : Bool) (fs : List (List ℕ)) (g : List ℕ)
      → collides u is_host fs (parents fs) g ≡ false
      → All (Apart u g) fs
  collides-Apart is_host fs g h =
      let (k, below) =
        neither (is_in u fs g || is_in u (parents fs) g) (any (is_in u fs) (parents_of u g)) h in
      let (e, i) = neither (is_in u fs g) (is_in u (parents fs) g) k in
      seen-Apart fs g e i (any-row u fs (parents_of u g) below)

  Apart-collides :
      (is_host : Bool) (fs : List (List ℕ)) (g : List ℕ)
      → All (Apart u g) fs
      → collides u is_host fs (parents fs) g ≡ false
  Apart-collides is_host fs g h =
      let (e, i, r) = Apart-seen fs g h in
      neither-false (is_in u fs g || is_in u (parents fs) g) (any (is_in u fs) (parents_of u g))
        (neither-false (is_in u fs g) (is_in u (parents fs) g) e i)
        (row-any u fs (parents_of u g) r)

  abbrev pub folded : List Json → List (List ℕ)
  folded vs = map u.casefold (map name vs)

  -- every name is apart from each of those that were seen
  abbrev Away : List (List ℕ) → List (List ℕ) → Type 0
  Away fs gs = All (λ g. All (Apart u g) fs) gs

  Away-cons :
      (f : List ℕ) (fs gs : List (List ℕ)) → All (Apart u f) gs → Away fs gs → Away (f ∷ fs) gs
  Away-cons f fs gs h k =
      All-imply (λ g. Apart u f g × All (Apart u g) fs) (λ g. All (Apart u g) (f ∷ fs)) gs
        (λ g w. (Apart-swap f g w.0, w.1)) (All-zip (Apart u f) (λ g. All (Apart u g) fs) gs h k)

  Away-split :
      (f : List ℕ) (fs gs : List (List ℕ)) → Away (f ∷ fs) gs → All (Apart u f) gs × Away fs gs
  Away-split f fs gs h = (
    All-imply (λ g. All (Apart u g) (f ∷ fs)) (Apart u f) gs (λ g w. Apart-swap g f w.0) h,
    All-imply (λ g. All (Apart u g) (f ∷ fs)) (λ g. All (Apart u g) fs) gs (λ g w. w.1) h,
  )

  Away-none : (gs : List (List ℕ)) → Away [] gs
  Away-none [] = tt
  Away-none (g ∷ gs) = (tt, Away-none gs)

  module _ (is_host : Bool) where
    source-relative : (v : Json) → source_check u is_host v ≡ none → is_relative u (name v) ≡ true
    unfolding source_check
    source-relative v h =
        let (_, (_, (r, _))) =
          first-All
            (object ("absolute_path" ∷ "relative_path" ∷ []) "invalid_source_spec" v
              ∷ side_path u is_host "invalid_source_path" (item "absolute_path" v)
              ∷ check_relative u (item "relative_path" v)
              ∷ [])
            h in
        text-relative (item "relative_path" v) r
      where
        text-relative : (w : Json) → check_relative u w ≡ none → is_relative u (path_of w) ≡ true
        text-relative (str s) k = expect-true _ "invalid_relative_path" k
        text-relative null k = cc k
        text-relative (bool b) k = cc k
        text-relative (int n) k = cc k
        text-relative (negative n) k = cc k
        text-relative (real t) k = cc k
        text-relative (arr xs) k = cc k
        text-relative (obj m) k = cc k

    abbrev pub AllSources : List Json → Type 0
    AllSources vs = All (λ v. source_check u is_host v ≡ none) vs

    sources-AllApart :
        (fs : List (List ℕ)) (vs : List Json)
        → sources_from u is_host fs (parents fs) vs ≡ none
        → AllSources vs × Away fs (folded vs) × AllApart u (folded vs)
    unfolding sources_from
    sources-AllApart fs [] h = (tt, tt, tt)
    sources-AllApart fs (v ∷ vs) h =
        let f = u.casefold (name v) in
        let (s, (k, (rest, _))) =
          first-All
            (source_check u is_host v
              ∷ expect (not (collides u is_host fs (parents fs) f)) "path_collision"
              ∷ sources_from u is_host (f ∷ fs) (parents (f ∷ fs)) vs
              ∷ [])
            h in
        let (ss, away, apart) = sources-AllApart (f ∷ fs) vs rest in
        let (row, away') = Away-split f fs (folded vs) away in
        (
          (s, ss),
          (collides-Apart is_host fs f (not-true _ (expect-true _ "path_collision" k)), away'),
          (row, apart),
        )

    AllApart-sources :
        (fs : List (List ℕ)) (vs : List Json)
        → AllSources vs
        → Away fs (folded vs)
        → AllApart u (folded vs)
        → sources_from u is_host fs (parents fs) vs ≡ none
    unfolding sources_from
    AllApart-sources fs [] s away apart = refl
    AllApart-sources fs (v ∷ vs) (s, ss) (w, ws) (row, apart) =
        let f = u.casefold (name v) in
        rw
          (
            s,
            expect-none (not (collides u is_host fs (parents fs) f)) "path_collision"
                (not-false _ (Apart-collides is_host fs f w)),
            AllApart-sources (f ∷ fs) vs ss (Away-cons f fs (folded vs) row ws) apart,
          )
          refl

    all-relative : (vs : List Json) → AllSources vs → AllRelative u (map name vs)
    all-relative [] h = tt
    all-relative (v ∷ vs) (h, hs) = (source-relative v h, all-relative vs hs)

    -- The loop over the sources passes exactly where each source passes by itself and
    -- `_check_collisions` passes their names.
    pub sources-check_collisions :
        (vs : List Json)
        → (sources_from u is_host [] [] vs ≡ none)
          ↔ (AllSources vs × (check_collisions u (map name vs) [] ≡ none))
    sources-check_collisions vs = (
      λ h.
          let (s, _, apart) = sources-AllApart [] vs h in
          (s, (check_collisions_iff u (map name vs)).1 (all-relative vs s, apart)),
      λ (s, h).
          let (_, apart) = (check_collisions_iff u (map name vs)).0 h in
          AllApart-sources [] vs s (Away-none (folded vs)) apart,
    )
