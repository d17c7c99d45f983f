-- ===== src/Flow/Reads.antt =====
-- The checks on a payload in velo_flow/coordinator.py, about the object that they leave.
use mcp_velociraptor.Prelude.{String, Bool, true, false, Option, none, some, List, [], ◌∷◌}
use mcp_velociraptor.Json.{Json, null, str, arr, obj, get}
use mcp_velociraptor.Proc.Triple.{Keeps}
use mcp_velociraptor.Proc.Keeps.{keeps_rules}
use mcp_velociraptor.Flow.Model.{Run, Spec}
use mcp_velociraptor.Flow.Wait.{field, warnings_in, warnings_count}
use mcp_velociraptor.Flow.Pages.{page_of, next_of, rows_of}

module _ {P : Run → Type 0} where
  pub field-Keeps : (k : String) (payload : Json) → Keeps P (field k payload)
  unfolding field
  field-Keeps k payload = search keeps_rules

  warnings_count-Keeps : (o : Option Json) → Keeps P (warnings_count o)
  unfolding warnings_count
  warnings_count-Keeps none = record { at = λ s h. h }
  warnings_count-Keeps (some (arr xs)) = record { at = λ s h. h }
  warnings_count-Keeps (some (obj m)) = record { at = λ s h. h }
  warnings_count-Keeps (some _) = record { at = λ s h. h }

  pub warnings_in-Keeps : (payload : Json) → Keeps P (warnings_in payload)
  unfolding warnings_in
  warnings_in-Keeps payload = warnings_count-Keeps (get "warnings" payload)

  pub rows_of-Keeps : (j : Json) → Keeps P (rows_of j)
  unfolding rows_of
  rows_of-Keeps (arr xs) = record { at = λ s h. h }
  rows_of-Keeps _ = record { at = λ s h. h }

  next_of-Keeps : (b : Bool) (j : Json) (rows : List Json) → Keeps P (next_of b j rows)
  unfolding next_of
  next_of-Keeps true (str t) [] = record { at = λ s h. h }
  next_of-Keeps true (str t) (r ∷ rows) = search keeps_rules
  next_of-Keeps true _ rows = record { at = λ s h. h }
  next_of-Keeps false null rows = record { at = λ s h. h }
  next_of-Keeps false _ rows = record { at = λ s h. h }

  pub page_of-Keeps :
      (spec : Spec) (cursor : Option String) (payload : Json)
      → Keeps P (page_of spec cursor payload)
  unfolding page_of
  page_of-Keeps spec cursor payload =
      search (keeps_rules, field-Keeps, rows_of-Keeps, next_of-Keeps) depth 40
