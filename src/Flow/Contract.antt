-- ===== src/Flow/Contract.antt =====
-- `_load_contract` of velo_flow/coordinator.py.
use text.Mathlib.Text.{◌==◌ as str_eq}
use mcp_velociraptor.Prelude.{
  ℕ, zero, suc, String, Bool, ◌&&◌, Option, none, some, List, [], ◌∷◌, any, all, if◌then◌else◌,
}
use mcp_velociraptor.Json.{Json, contains}
use mcp_velociraptor.Proc.{pure, modify, require, some_or, ◌>>=◌, ◌>>◌}
use mcp_velociraptor.Flow.Model.{
  Tool, tool_name, required_tools, World, Run, Spec, Listed, Flow, stop, crash, failed, fail,
  protocol_error, duplicate_tool, tools_missing, schema_invalid, list_tools_max_pages,
}
use mcp_velociraptor.Flow.Calls.{bounded}
use mcp_velociraptor.Flow.Sink.{write_contract}

abbrev pub named : String → List Listed → Option Listed
named k [] = none
named k (t ∷ found) = if str_eq t.name k then some t else named k found

abbrev is_named : List Listed → String → Bool
is_named found k = any (λ t. str_eq t.name k) found

-- The tools of one page are added to those that were found; a second one of a name is an error.
unfoldable pub add_tools : List Listed → List Listed → Flow (List Listed)
add_tools found [] = pure found
add_tools found (t ∷ tools) =
    if is_named found t.name then fail duplicate_tool else add_tools (t ∷ found) tools

abbrev pub has_required : List Listed → Bool
has_required found = all (λ t. is_named found (tool_name t)) required_tools

-- After a page: the loop ends where the tools are found or no cursor is left.
unfoldable pub next_page :
    List String → List Listed → Option String → (String → Flow (List Listed)) → Flow (List Listed)
next_page seen found none rest = pure found
next_page seen found (some next) rest =
    if contains seen next then fail protocol_error else rest next

-- The `for` over pages with its `else`; the first argument is the number of rounds left.
unfoldable pub list_pages :
    World → Spec → ℕ → Option String → List String → List Listed → Flow (List Listed)
list_pages w spec zero cursor seen found = fail tools_missing
list_pages w spec (suc left) cursor seen found = do
  response ← bounded w spec (λ n timeout. w.list_tools n timeout cursor)
  found' ← add_tools found response.tools
  if has_required found'
      then pure found'
      else next_page seen found' response.next_cursor
          (λ next. list_pages w spec left (some next) (next ∷ seen) found')

abbrev pub add_validator : Tool → Json × Json → Run → Run
add_validator t schemas s = record s { validators = (t, schemas) ∷ s.validators }

unfoldable pub install : World → List Listed → List Tool → Flow (Unit {0})
install w found [] = pure tt
install w found (t ∷ tools) = do
  tool ← some_or crash (named (tool_name t) found)
  require (w.check_schema tool.input_schema && w.check_schema tool.output_schema)
      (stop failed schema_invalid)
  modify (add_validator t (tool.input_schema, tool.output_schema))
  install w found tools

-- `_load_contract`
unfoldable pub load_contract : World → Spec → Flow (Unit {0})
load_contract w spec = do
  found ← list_pages w spec list_tools_max_pages none [] []
  require (has_required found) (stop failed tools_missing)
  install w found required_tools
  write_contract w found
