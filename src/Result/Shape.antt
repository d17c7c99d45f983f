-- ===== src/Result/Shape.antt =====
-- The size, the files and the bytes of an accepted result of velo_transfer/result.py.
use mcp_velociraptor.Sizes.Written.{text}
use mcp_velociraptor.Json.Proper.{both}
use mcp_velociraptor.Paths.Apart.{AllApart, check_collisions_iff, AllRelative}
use mcp_velociraptor.Sizes.Exact.{validate_json_iff}
use mcp_velociraptor.Paths.{check_collisions}
use mcp_velociraptor.Protocol.Checks.{first-All, expect-true}
use mcp_velociraptor.Result.Codes.{accepted}
use mcp_velociraptor.Sizes.Measure.{is_sound}
use mcp_velociraptor.Sizes.{Meter}
use mcp_velociraptor.Protocol.Faults.{item, failing, Fault, Check}
use mcp_velociraptor.Result.Document.{
  list_of, is_list, files_checks, path_of, field_checks, names, validate_fields, files,
}
use mcp_velociraptor.Result.Outcome.{measured, limits, validate_result, encoded}
use mcp_velociraptor.Json.{Json}
use mcp_velociraptor.Result.{recode, Outside}
use mcp_velociraptor.Prelude.{
  suc, ap, map, ◌≤◌, length, leb, ◌≡◌, Option, List, String, ℕ, refl, true, none, some, [], ◌∷◌,
  inl, arith,
}
use mcp_velociraptor.Protocol.Faults.{crash}
use mcp_velociraptor.Proc.{Exit, ok, err}

module _ (o : Outside) (max_files max_metadata_bytes : ℕ) where
  recode-none : (code : String) (c : Check) → recode code c ≡ none → c ≡ none
  recode-none code none h = refl
  recode-none code (some (failing e)) h = cc h
  recode-none code (some crash) h = cc h

  measured-ok :
      (x : Exit Meter Fault (Unit {0}))
      → measured o max_files max_metadata_bytes x ≡ none
      → (t : Meter) × (x ≡ ok tt t)
  measured-ok (ok u t) h = (t, refl)
  measured-ok (err e t) h = cc h

  files-room :
      (v : Json)
      → files o max_files v ≡ none
      → (length (names v) ≤ max_files) × (check_collisions o.unicode (names v) [] ≡ none)
  unfolding files
  files-room v h =
      let (n, (_, (c, _))) = first-All (files_checks o max_files v) h in
      let (_, short) = both (is_list v) _ (expect-true _ "result_file_count_exceeded" n) in
      (
        fits (length (list_of v)) (length (names v)) (length-map (list_of v)) short,
        recode-none "result_path_collision" _ c,
      )
    where
      length-map :
          (vs : List Json) → length (map (λ w. path_of (item "relative_path" w)) vs) ≡ length vs
      length-map [] = refl
      length-map (w ∷ vs) = ap suc (length-map vs)

      fits : (a b : ℕ) → b ≡ a → leb a max_files ≡ true → b ≤ max_files
      fits a b e h = ground arith

  pub encoded-written :
      (x : Option (List ℕ))
      → encoded o max_files max_metadata_bytes x ≡ none
      → (raw : List ℕ) × (x ≡ some raw) × (length raw ≤ max_metadata_bytes)
  unfolding encoded
  encoded-written none h = cc h
  encoded-written (some raw) h =
      (raw, refl, within (length raw) (expect-true _ "result_budget_exceeded" h))
    where
      within : (n : ℕ) → leb n max_metadata_bytes ≡ true → n ≤ max_metadata_bytes
      within n k = ground arith

  -- what the limits leave of an accepted result
  pub record IsBounded (d : Json) : Type 0 where
    pub sound : is_sound (limits o max_files max_metadata_bytes) d 0 ≡ true
    pub small : length (text (limits o max_files max_metadata_bytes) d) ≤ max_metadata_bytes
    pub written :
        (raw : List ℕ) × (o.canonical_json d ≡ some raw) × (length raw ≤ max_metadata_bytes)
    pub few : length (names (item "files" d)) ≤ max_files
    pub relative : AllRelative o.unicode (names (item "files" d))
    pub apart : AllApart o.unicode (map o.unicode.casefold (names (item "files" d)))

  -- A result that `validate_result` accepts has texts and numbers that can be written. Its text in
  -- JSON, without spaces and in UTF-8, has at most `max_metadata_bytes` bytes, and so have the bytes
  -- that `canonical_json` gives for it. Its files are at most `max_files`, their names are relative
  -- paths, and no two of these collide.
  pub validate_result-IsBounded :
      (d v : Json) → validate_result o max_files max_metadata_bytes d ≡ inl v → IsBounded d
  unfolding validate_fields
  validate_result-IsBounded d v h =
      let ((_, (m, (c₀, (f, _)))), _) = accepted o max_files max_metadata_bytes d v h in
      let (_, (_, (_, (_, (_, (_, (_, (_, (_, (_, (fs, _))))))))))) =
        first-All (field_checks o max_files max_metadata_bytes d) f in
      let (good, small, _) =
        (validate_json_iff (limits o max_files max_metadata_bytes) d
            (record { used = 0; nodes = 0 })).0
          (measured-ok _ m) in
      let (few, c) = files-room (item "files" d) fs in
      let (relative, apart) = (check_collisions_iff o.unicode (names (item "files" d))).0 c in
      record {
        sound = good;
        small = small;
        written = encoded-written (o.canonical_json d) c₀;
        few = few;
        relative = relative;
        apart = apart;
      }
