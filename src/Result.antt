-- ===== src/Result.antt =====
-- The parts of a result in velo_transfer/result.py: digests, numbers, paths, machines, references
-- and files.
use mcp_velociraptor.Protocol.Fields.{is_short_text}
use mcp_velociraptor.Wire.Frame.{same_bytes}
use mcp_velociraptor.Wire.Validate.{is_natural, is_digest}
use mcp_velociraptor.Text.{is_digit, codes}
use mcp_velociraptor.Paths.{split, check_relative, is_none_of, Unicode}
use mcp_velociraptor.Protocol.Faults.{item, object, first, failing, crash, expect, Check}
pub mod Document
pub mod Outcome
pub mod Facts
pub mod Codes
pub mod Shape
pub mod Reading
pub mod Tests
use text.Mathlib.Text.{◌==◌ as str_eq}
use mcp_velociraptor.Prelude.{
  any, all, length, ◌||◌, not, ltb, leb, ◌==◌, ◌&&◌, Option, Bool, ℕ, String, List, if◌then◌else◌,
  true, false, none, some, [], ◌∷◌,
}
use mcp_velociraptor.Json.{Json, null, str, int, arr, nil, cons}

-- What the code calls: `str(uuid.UUID(text))` (none where it raises), the limits of `_validate_json`
-- but for the bytes, `json.dumps` with the options of `canonical_json` and `encode` (none where they
-- raise), the text of a number, and Unicode's tables.
pub record Outside : Type 0 where
  pub uuid_text : String → Option String
  pub canonical_json : Json → Option (List ℕ)
  pub number_text : Json → Option (List ℕ)
  pub unicode : Unicode

-- `except Error: raise Error(code)`
abbrev pub recode : String → Check → Check
recode code none = none
recode code (some (failing c)) = some (failing code)
recode code (some crash) = some crash

abbrev pub optional : (Json → Check) → Json → Check
optional check null = none
optional check v = check v

-- `_digest` with `optional=False`
abbrev pub sure_digest : Json → Check
sure_digest v = expect (is_digest v) "invalid_result_digest"

-- `_digest`
abbrev pub digest : Json → Check
digest v = optional sure_digest v

-- `_number`
abbrev pub number : Json → Check
number v = expect (is_natural v) "invalid_result_number"

-- the integer in a value that was checked to be one
abbrev pub number_of : Json → ℕ
number_of (int n) = n
number_of _ = 0

abbrev is_control : ℕ → Bool
is_control c = ltb c 32 || (leb 127 c && leb c 159) || (leb 55296 c && leb c 57343)

abbrev is_path_text : Json → Bool
is_path_text (str s) =
    not (length (codes s) == 0) && leb (length (codes s)) 32767 && not (any is_control (codes s))
is_path_text _ = false

-- `_path_text`
abbrev pub path_text : Json → Check
path_text v = expect (is_path_text v) "invalid_result_path"

-- `uuid.UUID` takes a text, and its own text is that one
abbrev is_uuid : Outside → Json → Bool
is_uuid o (str s) = elim (o.uuid_text s) [ none ↦ false | some t ↦ str_eq s t ]
is_uuid o _ = false

-- `_identity`
unfoldable pub identity : Outside → Json → Check
identity o v =
    let code : String = "invalid_result_vm_identity" in
    first (
      object ("vm_uuid" ∷ "boot_identity" ∷ "vm_epoch" ∷ []) code v
      ∷ expect (is_uuid o (item "vm_uuid" v)) code
      ∷ expect (is_short_text 256 (item "boot_identity" v)) code
      ∷ expect (is_short_text 256 (item "vm_epoch" v)) code
      ∷ [])

abbrev is_lower : ℕ → Bool
is_lower c = leb b'a' c && leb c b'z'

abbrev is_code_char : ℕ → Bool
is_code_char c = is_lower c || is_digit c || (c == b'_')

abbrev matches : (ℕ → Bool) → List ℕ → Bool
matches test [] = false
matches test (c ∷ cs) = is_lower c && leb (length cs) 63 && all test cs

-- `_CODE`
abbrev pub is_code : Json → Bool
is_code (str s) = matches is_code_char (codes s)
is_code _ = false

-- `_EVIDENCE_NAME`
abbrev is_evidence_name : Json → Bool
is_evidence_name (str s) = matches (λ c. is_code_char c || (c == b'-')) (codes s)
is_evidence_name _ = false

-- `_reference`
unfoldable pub reference : ℕ → Json → Check
reference max_metadata_bytes v =
    let code : String = "invalid_result_evidence" in
    first (
      object ("name" ∷ "size" ∷ "sha256" ∷ "device" ∷ "inode" ∷ "mtime_ns" ∷ []) code v
      ∷ expect (is_evidence_name (item "name" v)) code
      ∷ sure_digest (item "sha256" v)
      ∷ number (item "size" v)
      ∷ number (item "device" v)
      ∷ number (item "inode" v)
      ∷ number (item "mtime_ns" v)
      ∷ expect (leb (number_of (item "size" v)) max_metadata_bytes) code
      ∷ [])

abbrev is_step : List ℕ → Bool
is_step [] = false
is_step (c ∷ cs) = not (same_bytes (c ∷ cs) (codes ".")) && not (same_bytes (c ∷ cs) (codes ".."))

-- A text that starts with a slash is absolute for `PurePosixPath`.
abbrev is_absolute : List ℕ → Bool
is_absolute [] = false
is_absolute (c ∷ cs) = (c == b'/') && is_none_of b'\\' cs && all is_step (split b'/' cs)

-- `_result_path`: the empty name that the split finds in "/", after "//" and at a last slash is
-- refused with the same code as the tests for these
unfoldable pub result_path : Json → Check
result_path (str s) =
    first (path_text (str s) ∷ expect (is_absolute (codes s)) "invalid_result_path" ∷ [])
result_path v = path_text v

-- `_budget`, where a limit that is no positive number is 0
abbrev pub budget : ℕ → ℕ → Check
budget max_files max_metadata_bytes =
    expect (not (max_files == 0) && not (max_metadata_bytes == 0)) "invalid_result_budget"

-- one round of the loop over the files, with its `names.append`
unfoldable pub file : Outside → Json → Check
file o v = first (
    object ("source" ∷ "relative_path" ∷ "destination" ∷ "size" ∷ "sha256" ∷ [])
      "invalid_result_file" v
    ∷ path_text (item "source" v)
    ∷ path_text (item "destination" v)
    ∷ recode "invalid_result_file" (check_relative o.unicode (item "relative_path" v))
    ∷ number (item "size" v)
    ∷ sure_digest (item "sha256" v)
    ∷ [])
