-- ===== src/Request.antt =====
-- The parts of a request in velo_transfer/request.py: texts, paths, budgets and sources.
pub mod Sources
pub mod Document
pub mod Members
pub mod Facts
pub mod Accepted
pub mod Spec
mod Tests
pub mod Guest
use mcp_velociraptor.Protocol.Fields.{is_short_text}
use mcp_velociraptor.Wire.Validate.{is_natural}
use mcp_velociraptor.Text.{codes}
use mcp_velociraptor.Prelude.{
  any, all, ◌||◌, length, ◌&&◌, not, leb, ◌==◌, Option, Bool, ◌++◌, ℕ, String, List, if◌then◌else◌,
  true, false, none, [], ◌∷◌, zero,
}
use mcp_velociraptor.Json.{items, Json, str, int, arr, nil, cons, real}
use mcp_velociraptor.Protocol.Faults.{is_true, expect, object, first, item, Check}
use mcp_velociraptor.Paths.{
  split, is_relative, is_none_of, check_relative, parents_of, is_in, is_drive, Unicode,
}

-- What the code calls: `str(uuid.UUID(text))` (none where it raises), `str.lower`, `canonical_json`
-- (none where it raises) and `digest_json`, Unicode's tables, and the order of the finite numbers
-- that are no integers.
pub record Library : Type 0 where
  pub uuid_text : String → Option String
  pub lower : String → String
  pub canonical_json : Json → Option (List ℕ)
  pub digest_json : Json → String
  pub unicode : Unicode
  pub is_positive : String → Bool
  pub is_finite : String → Bool
  pub is_at_most : String → ℕ → Bool

-- `_text`
abbrev pub limited_text : ℕ → String → Json → Check
limited_text limit code v = expect (is_short_text limit v) code

abbrev is_posix : Unicode → List ℕ → Bool
is_posix u [] = false
is_posix u (c ∷ cs) = (c == b'/') && all (is_relative u) (split b'/' cs)

-- `_posix`: the empty part of "/", after "//" and at a last slash is no relative path, and its
-- refusal has the same code as the tests for these
unfoldable pub posix : Unicode → String → Json → Check
posix u code (str s) =
    first (limited_text 32767 code (str s) ∷ expect (is_posix u (codes s)) code ∷ [])
posix u code v = limited_text 32767 code v

abbrev is_windows : Unicode → List ℕ → Bool
is_windows u (c ∷ d ∷ e ∷ cs) =
    is_drive (c ∷ d ∷ [])
    && (e == b'\\')
    && is_none_of b'/' cs
    && all (is_relative u) (split b'\\' cs)
is_windows u _ = false

-- `_windows`, with the same remark on a last backslash
unfoldable pub windows : Unicode → String → Json → Check
windows u code (str s) =
    first (limited_text 32767 code (str s) ∷ expect (is_windows u (codes s)) code ∷ [])
windows u code v = limited_text 32767 code v

-- the path of one side: a POSIX path of the host, or a Windows path of the guest
abbrev pub side_path : Unicode → Bool → String → Json → Check
side_path u is_host code v = if is_host then posix u code v else windows u code v

-- `_BUDGET_KEYS` that may be 0, and the others
abbrev zero_keys : List String
zero_keys = "max_logical_bytes" ∷ "min_free_bytes" ∷ []

abbrev positive_keys : List String
positive_keys =
    "max_files" ∷ "max_metadata_bytes" ∷ "max_package_bytes" ∷ "max_chunk_bytes"
    ∷ "max_duration_seconds" ∷ []

-- `_BUDGET_KEYS`
abbrev pub budget_keys : List String
budget_keys = zero_keys ++ positive_keys

-- an integer in a value that was checked to be one
abbrev pub amount : Json → ℕ
amount (int n) = n
amount _ = 0

abbrev is_positive_number : Json → Bool
is_positive_number (int zero) = false
is_positive_number (int _) = true
is_positive_number _ = false

-- the timeout, within the duration
abbrev pub is_timeout : Library → ℕ → Json → Bool
is_timeout l duration (int n) = not (n == 0) && leb n 300 && leb n duration
is_timeout l duration (real s) =
    l.is_positive s && l.is_at_most s 300 && l.is_finite s && l.is_at_most s duration
is_timeout l duration _ = false

abbrev pub budget_checks : Library → Json → List Check
budget_checks l v =
    object ("request_timeout_seconds" ∷ budget_keys) "invalid_budget" v
    ∷ expect
        (all (λ k. is_natural (item k v)) zero_keys
          && all (λ k. is_positive_number (item k v)) positive_keys)
        "invalid_budget"
    ∷ expect
        (is_timeout l (amount (item "max_duration_seconds" v)) (item "request_timeout_seconds" v))
        "invalid_budget"
    ∷ []

-- `_validate_budget`
unfoldable pub validate_budget : Library → Json → Check
validate_budget l v = first (budget_checks l v)

abbrev pub list_of : Json → List Json
list_of (arr xs) = items xs
list_of _ = []

abbrev is_references : Json → Bool
is_references (arr nil) = false
is_references (arr (cons x xs)) =
    leb (length (items (cons x xs))) 4096 && all (is_short_text 512) (items (cons x xs))
is_references _ = false

-- `evidence_context`
abbrev pub evidence_checks : Json → List Check
evidence_checks v =
    object ("producer_complete" ∷ "producer_quiescent" ∷ "references" ∷ [])
      "producer_evidence_missing" v
    ∷ expect
        (is_true (item "producer_complete" v)
          && is_true (item "producer_quiescent" v)
          && is_references (item "references" v))
        "producer_evidence_missing"
    ∷ []

unfoldable pub evidence : Json → Check
evidence v = first (evidence_checks v)

abbrev pub path_of : Json → List ℕ
path_of (str s) = codes s
path_of _ = []

-- the name that a source has in the package
abbrev pub name : Json → List ℕ
name source = path_of (item "relative_path" source)

module _ (u : Unicode) (is_host : Bool) where
  -- one source, but for the names before it
  unfoldable pub source_check : Json → Check
  source_check v = first (
      object ("absolute_path" ∷ "relative_path" ∷ []) "invalid_source_spec" v
      ∷ side_path u is_host "invalid_source_path" (item "absolute_path" v)
      ∷ check_relative u (item "relative_path" v)
      ∷ [])

  -- the test of a folded name against `names` and `parents`
  abbrev pub collides : List (List ℕ) → List (List ℕ) → List ℕ → Bool
  collides names parents folded =
      is_in u names folded || is_in u parents folded || any (is_in u names) (parents_of u folded)

  -- the loop over the sources
  unfoldable pub sources_from : List (List ℕ) → List (List ℕ) → List Json → Check
  sources_from names parents [] = none
  sources_from names parents (v ∷ vs) =
      let folded = u.casefold (name v) in
      let rest = sources_from (folded ∷ names) (parents_of u folded ++ parents) vs in
      first
        (source_check v ∷ expect (not (collides names parents folded)) "path_collision" ∷ rest ∷ [])
