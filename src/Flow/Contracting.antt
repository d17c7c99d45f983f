-- ===== src/Flow/Contracting.antt =====
-- `_load_contract` of velo_flow/coordinator.py, about what it keeps and the contract file.
use mcp_velociraptor.Proc.Keeps.{
  Keeps-modify, Keeps-some_or, Keeps-if, Keeps-require, Keeps-raise, Keeps-pure, Keeps-bind,
}
use mcp_velociraptor.Json.{Json}
use mcp_velociraptor.Flow.Calls.{bounded}
use mcp_velociraptor.Prelude.{
  refl, zero, ◌∷◌, suc, some, [], none, String, Option, List, true, ◌≡◌, ℕ,
}
use mcp_velociraptor.Proc.Triple.{Triple-any, Triple-bind, Keeps, Triple}
use mcp_velociraptor.Flow.Sink.{write, write_contract}
use mcp_velociraptor.Flow.Contract.{
  next_page, list_pages, install, add_tools, add_validator, load_contract,
}
use mcp_velociraptor.Flow.Model.{
  required_tools, Flow, Listed, list_tools_max_pages, Tool, Listing, Arrival, Spec, World, Run,
}

module _ (P : Run → Type 0) (w : World) (spec : Spec)
    (asks : (st : ℕ → ℕ → Arrival Listing) → Keeps P (bounded w spec st))
    (writes : Keeps P (write w))
    (adds : (t : Tool) (schemas : Json × Json) (s : Run) → P s → P (add_validator t schemas s))
    (closes : (s : Run) → P s → P (record s { contract_written = true })) where
  add_tools-Keeps : (found tools : List Listed) → Keeps P (add_tools found tools)
  unfolding add_tools
  add_tools-Keeps found [] = Keeps-pure found
  add_tools-Keeps found (t ∷ tools) =
      Keeps-if _ _ _ (Keeps-raise _) (add_tools-Keeps (t ∷ found) tools)

  next_page-Keeps :
      (seen : List String) (found : List Listed) (next : Option String)
      (rest : String → Flow (List Listed))
      → ((n : String) → Keeps P (rest n))
      → Keeps P (next_page seen found next rest)
  unfolding next_page
  next_page-Keeps seen found none rest k = Keeps-pure found
  next_page-Keeps seen found (some n) rest k = Keeps-if _ _ _ (Keeps-raise _) (k n)

  list_pages-Keeps :
      (left : ℕ) (cursor : Option String) (seen : List String) (found : List Listed)
      → Keeps P (list_pages w spec left cursor seen found)
  unfolding list_pages
  list_pages-Keeps zero cursor seen found = Keeps-raise _
  list_pages-Keeps (suc left) cursor seen found = Keeps-bind _ _ (asks _) λ response.
      Keeps-bind _ _ (add_tools-Keeps found response.tools) λ found'.
        Keeps-if _ _ _ (Keeps-pure _) (
          next_page-Keeps seen found' response.next_cursor _
            λ next. list_pages-Keeps left (some next) _ found')

  install-Keeps : (found : List Listed) (tools : List Tool) → Keeps P (install w found tools)
  unfolding install
  install-Keeps found [] = Keeps-pure tt
  install-Keeps found (t ∷ tools) = Keeps-bind _ _ (Keeps-some_or _ _) λ tool.
      Keeps-bind _ _ (Keeps-require _ _)
        λ _. Keeps-bind _ _ (Keeps-modify _ (adds t _)) λ _. install-Keeps found tools

  pub load_contract-Keeps : Keeps P (load_contract w spec)
  unfolding load_contract write_contract
  load_contract-Keeps = Keeps-bind _ _ (list_pages-Keeps list_tools_max_pages none [] []) λ found.
      Keeps-bind _ _ (Keeps-require _ _) λ _.
        Keeps-bind _ _ (install-Keeps found required_tools) λ _. Keeps-bind _ _ writes λ _.
          Keeps-bind _ _ (Keeps-some_or _ _) λ raw. Keeps-bind _ _ writes λ _. Keeps-modify _ closes

-- Loading returns only when the contract is written.
pub load_contract-written :
    (w : World) (spec : Spec)
    → Triple
        (λ _. Unit {0})
        (load_contract w spec)
        (λ _ s. s.contract_written ≡ true)
        (λ _ _. Unit {0})
unfolding load_contract write_contract
load_contract-written w spec = Triple-bind (Triple-any _) λ found. Triple-bind (Triple-any _) λ _.
    Triple-bind (Triple-any _) λ _. Triple-bind (Triple-any _) λ _.
      Triple-bind (Triple-any _) λ _. Triple-bind (Triple-any _) λ _. record { at = λ s h. refl }
