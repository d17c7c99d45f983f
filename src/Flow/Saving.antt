-- ===== src/Flow/Saving.antt =====
-- The saving of a page in velo_flow/coordinator.py, for any property of the run.
use mcp_velociraptor.Proc.Keeps.{
  Keeps-raise, Keeps-if, Keeps-some_or, Keeps-modify, Keeps-gets, Keeps-bind, Keeps-pure,
}
use mcp_velociraptor.Flow.Pages.{save_page, extend_sample, unread, saved, add_sample}
use mcp_velociraptor.Json.{Json}
use mcp_velociraptor.Prelude.{length, some, [], ◌∷◌, String, Option, ℕ, List}
use mcp_velociraptor.Flow.Sink.{append_rows_page, append_rows, add_row, write}
use mcp_velociraptor.Proc.Triple.{Keeps}
use mcp_velociraptor.Flow.Model.{Spec, World, Run}

module _ (P : Run → Type 0) (w : World) (spec : Spec) (writes : Keeps P (write w))
    (adds : (line : List ℕ) (s : Run) → P s → P (add_row line s))
    (samples : (row : Json) (s : Run) → P s → P (add_sample row s))
    (saves : (n : ℕ) (s : Run) → P s → P (saved n s))
    (unreads : (c : Option String) (s : Run) → P s → P (unread c s)) where
  append_rows-Keeps : (lines : List (List ℕ)) → Keeps P (append_rows w lines)
  unfolding append_rows
  append_rows-Keeps [] = Keeps-pure tt
  append_rows-Keeps (line ∷ lines) =
      Keeps-bind _ _ writes
        λ _. Keeps-bind _ _ (Keeps-modify _ (adds line)) λ _. append_rows-Keeps lines

  extend_sample-Keeps : (rows : List Json) → Keeps P (extend_sample w spec rows)
  unfolding extend_sample
  extend_sample-Keeps [] = Keeps-pure tt
  extend_sample-Keeps (row ∷ rows) = Keeps-bind _ _ (Keeps-gets _) λ sample.
      Keeps-if _ _ _ (Keeps-pure _) (
        Keeps-bind _ _ (Keeps-some_or _ _) λ projected.
          Keeps-bind _ _ (Keeps-if _ _ _ (Keeps-modify _ (samples projected)) (Keeps-pure _))
            λ _. extend_sample-Keeps rows)

  pub save_page-Keeps : (echo : String) (rows : List Json) → Keeps P (save_page w spec echo rows)
  unfolding save_page append_rows_page
  save_page-Keeps echo rows = Keeps-bind _ _ (Keeps-some_or _ _) λ lines.
      Keeps-bind _ _ (Keeps-gets _) λ used.
        Keeps-if _ _ _ (Keeps-bind _ _ (Keeps-modify _ (unreads (some echo))) λ _. Keeps-raise _) (
          Keeps-bind _ _ (Keeps-bind _ _ (append_rows-Keeps lines) λ _. writes) λ _.
            Keeps-bind _ _ (Keeps-modify _ (saves (length rows))) λ _. extend_sample-Keeps rows)
