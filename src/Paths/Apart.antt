-- ===== src/Paths/Apart.antt =====
-- `_check_collisions` of velo_transfer/manifest.py, pair by pair.
use mcp_velociraptor.Protocol.Faults.{expect}
use mcp_velociraptor.Protocol.Checks.{expect-true, first-All}
use mcp_velociraptor.Wire.Frame.{same_bytes}
use mcp_velociraptor.Paths.Collisions.{
  not-true, not-false, expect-none, same_bytes-swap, own_parents, neither-false, neither, All-zip,
  All-imply,
}
use mcp_velociraptor.Paths.{
  relative, is_relative, files_among, distinct, check_collisions, above, parents_of, is_in, Unicode,
}
use mcp_velociraptor.Prelude.{
  subst, not, ◌↔◌, true, none, map, ap, ◌≡◌, any, All, ℕ, List, refl, [], ◌∷◌, false,
}

module _ (u : Unicode) where
  -- Neither text is the other one, or above it.
  abbrev pub Apart : List ℕ → List ℕ → Type 0
  Apart a b =
      (same_bytes a b ≡ false)
      × (is_in u (parents_of u a) b ≡ false)
      × (is_in u (parents_of u b) a ≡ false)

  abbrev pub AllApart : List (List ℕ) → Type 0
  AllApart [] = Unit {0}
  AllApart (f ∷ fs) = All (Apart f) fs × AllApart fs

  -- no text of the first list is above a text of the second one
  abbrev Below : List (List ℕ) → List (List ℕ) → Type 0
  Below files fs = All (λ f. any (is_in u files) (parents_of u f) ≡ false) fs

  abbrev Rows : List (List ℕ) → List (List ℕ) → Type 0
  Rows files fs = All (λ f. All (λ g. is_in u (parents_of u f) g ≡ false) files) fs

  -- none of the texts is the given one
  no-same :
      (files : List (List ℕ)) (p : List ℕ)
      → is_in u files p ≡ false
      → All (λ g. same_bytes p g ≡ false) files
  no-same [] p h = tt
  no-same (f ∷ fs) p h =
      let (e, k) = neither (same_bytes f p) (is_in u fs p) h in
      (same_bytes-swap f p e, no-same fs p k)

  same-no :
      (files : List (List ℕ)) (p : List ℕ)
      → All (λ g. same_bytes p g ≡ false) files
      → is_in u files p ≡ false
  same-no [] p h = refl
  same-no (f ∷ fs) p (h, hs) =
      neither-false (same_bytes f p) (is_in u fs p) (same_bytes-swap p f h) (same-no fs p hs)

  nothing : (files : List (List ℕ)) → All (λ g. is_in u [] g ≡ false) files
  nothing [] = tt
  nothing (f ∷ fs) = (refl, nothing fs)

  -- none of the files is among the texts: seen from the texts, and from the files
  pub any-row :
      (files ps : List (List ℕ))
      → any (is_in u files) ps ≡ false
      → All (λ g. is_in u ps g ≡ false) files
  any-row files [] h = nothing files
  any-row files (p ∷ ps) h =
      let (e, k) = neither (is_in u files p) (any (is_in u files) ps) h in
      All-imply (λ g. (same_bytes p g ≡ false) × (is_in u ps g ≡ false))
        (λ g. is_in u (p ∷ ps) g ≡ false) files
        (λ g w. neither-false (same_bytes p g) (is_in u ps g) w.0 w.1)
        (All-zip (λ g. same_bytes p g ≡ false) (λ g. is_in u ps g ≡ false) files (no-same files p e)
          (any-row files ps k))

  pub row-any :
      (files ps : List (List ℕ))
      → All (λ g. is_in u ps g ≡ false) files
      → any (is_in u files) ps ≡ false
  row-any files [] h = refl
  row-any files (p ∷ ps) h =
      neither-false (is_in u files p) (any (is_in u files) ps)
        (same-no files p (
          All-imply (λ g. is_in u (p ∷ ps) g ≡ false) (λ g. same_bytes p g ≡ false) files
            (λ g w. (neither (same_bytes p g) (is_in u ps g) w).0) h))
        (row-any files ps (
          All-imply (λ g. is_in u (p ∷ ps) g ≡ false) (λ g. is_in u ps g ≡ false) files
            (λ g w. (neither (same_bytes p g) (is_in u ps g) w).1) h))

  abbrev Distinct : List (List ℕ) → Type 0
  Distinct [] = Unit {0}
  Distinct (f ∷ fs) = All (λ g. same_bytes f g ≡ false) fs × Distinct fs

  Rows-AllApart : (fs : List (List ℕ)) → Distinct fs → Rows fs fs → AllApart fs
  Rows-AllApart [] d h = tt
  Rows-AllApart (f ∷ fs) (d, ds) ((_, row), rows) = (
    All-imply
        (λ g.
          (same_bytes f g ≡ false)
          × ((is_in u (parents_of u f) g ≡ false) × (is_in u (parents_of u g) f ≡ false)))
        (Apart f) fs (λ g (e, k). (e, k.0, k.1))
        (All-zip (λ g. same_bytes f g ≡ false)
          (λ g. (is_in u (parents_of u f) g ≡ false) × (is_in u (parents_of u g) f ≡ false)) fs d
          (All-zip (λ g. is_in u (parents_of u f) g ≡ false)
            (λ g. is_in u (parents_of u g) f ≡ false) fs row
            (All-imply (λ g. All (λ x. is_in u (parents_of u g) x ≡ false) (f ∷ fs))
              (λ g. is_in u (parents_of u g) f ≡ false) fs (λ g w. w.0) rows))),
    Rows-AllApart fs ds (
        All-imply (λ g. All (λ x. is_in u (parents_of u g) x ≡ false) (f ∷ fs))
          (λ g. All (λ x. is_in u (parents_of u g) x ≡ false) fs) fs (λ g w. w.1) rows),
  )

  AllApart-Rows : (fs : List (List ℕ)) → AllApart fs → Distinct fs × Rows fs fs
  AllApart-Rows [] h = (tt, tt)
  AllApart-Rows (f ∷ fs) (h, hs) =
      let (d, rows) = AllApart-Rows fs hs in
      (
        (All-imply (Apart f) (λ g. same_bytes f g ≡ false) fs (λ g w. w.0) h, d),
        (
          (
            own_parents u f,
            All-imply (Apart f) (λ g. is_in u (parents_of u f) g ≡ false) fs (λ g w. w.1) h,
          ),
          All-zip (λ g. is_in u (parents_of u g) f ≡ false)
              (λ g. All (λ x. is_in u (parents_of u g) x ≡ false) fs) fs
              (All-imply (Apart f) (λ g. is_in u (parents_of u g) f ≡ false) fs (λ g w. w.2) h)
              rows,
        ),
      )

  -- the names are relative paths
  abbrev pub AllRelative : List (List ℕ) → Type 0
  AllRelative names = All (λ n. is_relative u n ≡ true) names

  -- no folded name is among those that were seen
  abbrev Unseen : List (List ℕ) → List (List ℕ) → Type 0
  Unseen seen fs = All (λ f. is_in u seen f ≡ false) fs

  Unseen-more :
      (f : List ℕ) (seen fs : List (List ℕ))
      → All (λ g. same_bytes f g ≡ false) fs
      → Unseen seen fs
      → Unseen (f ∷ seen) fs
  Unseen-more f seen fs h k =
      All-imply (λ g. (same_bytes f g ≡ false) × (is_in u seen g ≡ false))
        (λ g. is_in u (f ∷ seen) g ≡ false) fs
        (λ g w. neither-false (same_bytes f g) (is_in u seen g) w.0 w.1)
        (All-zip (λ g. same_bytes f g ≡ false) (λ g. is_in u seen g ≡ false) fs h k)

  distinct-all :
      (seen names : List (List ℕ))
      → distinct u seen names ≡ none
      → AllRelative names × Distinct (map u.casefold names) × Unseen seen (map u.casefold names)
  unfolding distinct
  distinct-all seen [] h = (tt, tt, tt)
  distinct-all seen (n ∷ ns) h =
      let f = u.casefold n in
      let (r, (k, (rest, _))) =
        first-All
          (relative u n
            ∷ expect (not (is_in u seen f)) "path_collision"
            ∷ distinct u (f ∷ seen) ns
            ∷ [])
          h in
      let (rs, ds, us) = distinct-all (f ∷ seen) ns rest in
      let fs = map u.casefold ns in
      (
        (expect-true (is_relative u n) "invalid_relative_path" r, rs),
        (
          All-imply (λ g. is_in u (f ∷ seen) g ≡ false) (λ g. same_bytes f g ≡ false) fs
              (λ g w. (neither (same_bytes f g) (is_in u seen g) w).0) us,
          ds,
        ),
        (
          not-true (is_in u seen f) (expect-true (not (is_in u seen f)) "path_collision" k),
          All-imply (λ g. is_in u (f ∷ seen) g ≡ false) (λ g. is_in u seen g ≡ false) fs
              (λ g w. (neither (same_bytes f g) (is_in u seen g) w).1) us,
        ),
      )

  all-distinct :
      (seen names : List (List ℕ))
      → AllRelative names
      → Distinct (map u.casefold names)
      → Unseen seen (map u.casefold names)
      → distinct u seen names ≡ none
  unfolding distinct
  all-distinct seen [] r d k = refl
  all-distinct seen (n ∷ ns) (r, rs) (d, ds) (k, ks) =
      let f = u.casefold n in
      rw
        (
          expect-none (is_relative u n) "invalid_relative_path" r,
          expect-none (not (is_in u seen f)) "path_collision" (not-false (is_in u seen f) k),
          all-distinct (f ∷ seen) ns rs ds (Unseen-more f seen (map u.casefold ns) d ks),
        )
        refl

  above-Rows :
      (files names : List (List ℕ)) → above u files names ≡ none → Rows files (map u.casefold names)
  unfolding above
  above-Rows files [] h = tt
  above-Rows files (n ∷ ns) h =
      let f = u.casefold n in
      let (k, (rest, _)) =
        first-All
          (expect (not (any (is_in u files) (parents_of u f))) "path_collision"
            ∷ above u files ns
            ∷ [])
          h in
      (
        any-row files (parents_of u f) (not-true _ (expect-true _ "path_collision" k)),
        above-Rows files ns rest,
      )

  Rows-above :
      (files names : List (List ℕ)) → Rows files (map u.casefold names) → above u files names ≡ none
  unfolding above
  Rows-above files [] h = refl
  Rows-above files (n ∷ ns) (h, hs) =
      let ps = parents_of u (u.casefold n) in
      rw
        (
          expect-none (not (any (is_in u files) ps)) "path_collision"
              (not-false (any (is_in u files) ps) (row-any files ps h)),
          Rows-above files ns hs,
        )
        refl

  files_self : (fs : List (List ℕ)) → files_among u [] fs ≡ fs
  files_self [] = refl
  files_self (f ∷ fs) = ap (◌∷◌ f) (files_self fs)

  -- With no directories, `_check_collisions` passes exactly where the names are relative paths, and
  -- of any two of them, in lower case, neither is the other one or above it.
  pub check_collisions_iff :
      (names : List (List ℕ))
      → (check_collisions u names [] ≡ none) ↔ (AllRelative names × AllApart (map u.casefold names))
  unfolding check_collisions
  check_collisions_iff names =
      let fs = map u.casefold names in
      (
        λ h.
            let (d, (a, _)) =
              first-All (distinct u [] names ∷ above u (files_among u [] fs) names ∷ []) h in
            let (r, ds, _) = distinct-all [] names d in
            (
              r,
              Rows-AllApart fs ds
                  (above-Rows fs names (subst (λ v. above u v names ≡ none) (files_self fs) a)),
            ),
        λ (r, h).
            let (d, rows) = AllApart-Rows fs h in
            rw (all-distinct [] names r d (none-seen fs), files_self fs, Rows-above fs names rows)
              refl,
      )
    where
      none-seen : (fs : List (List ℕ)) → Unseen [] fs
      none-seen [] = tt
      none-seen (f ∷ fs) = (refl, none-seen fs)
