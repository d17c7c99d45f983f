-- ===== src/Sizes/Tests.antt =====
-- A small document.
use mcp_velociraptor.Sizes.Written.{escaped, keyed, members_text, text}
use mcp_velociraptor.Sizes.Exact.{validate_json_iff}
use mcp_velociraptor.Sizes.Measure.{is_sound}
use mcp_velociraptor.Proc.{◌>>=◌, ok}
use mcp_velociraptor.Sizes.{
  open_children, enter, charge, chars, visit, validate_json, Meter, Limits,
}
use mcp_velociraptor.Sizes.Measure.{nodes}
use mcp_velociraptor.Prelude.{[], ◌∷◌, length, ◌≤◌, true, ◌↔◌, ◌≡◌, refl, some}
use mcp_velociraptor.Json.{Json, obj, member, int, str, end}

abbrev small_limits : Limits
small_limits = record {
  max_bytes = 100;
  max_nodes = 10;
  max_depth = 3;
  number_text = λ _. some (b'5' ∷ []);
}

abbrev small_document : Json
small_document = obj (member "a" (int 5) (member "b" (str "x\n") end))

abbrev unused : Meter
unused = record { used = 0; nodes = 0 }

validate_json_iff_example :
    ((t : Meter) × (validate_json small_limits small_document unused ≡ ok tt t)) ↔ (
      (is_sound small_limits small_document 0 ≡ true)
      × (length (text small_limits small_document) ≤ small_limits.max_bytes)
      × (nodes small_document ≤ small_limits.max_nodes))
validate_json_iff_example = validate_json_iff small_limits small_document unused

small_document-size :
    validate_json small_limits small_document unused ≡ ok tt (record { used = 17; nodes = 3 })
unfolding validate_json visit chars charge enter open_children ◌>>=◌
small_document-size = refl

-- {"a":5,"b":"x\n"}
small_document-text :
    text small_limits small_document
    ≡ b'{' ∷ b'"' ∷ b'a' ∷ b'"' ∷ b':' ∷ b'5' ∷ b',' ∷ b'"' ∷ b'b' ∷ b'"' ∷ b':' ∷ b'"' ∷ b'x'
      ∷ b'\\' ∷ b'n' ∷ b'"' ∷ b'}' ∷ []
unfolding text members_text keyed escaped
small_document-text = refl
