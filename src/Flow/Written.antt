-- ===== src/Flow/Written.antt =====
-- `rows.jsonl` of velo_flow/coordinator.py: its lines against the pages that the tool answered.
use mcp_velociraptor.Json.{Json}
use mcp_velociraptor.Flow.Model.{World, Spec, get_flow_results}
use mcp_velociraptor.Flow.Pages.{page_args, lines_of}
use mcp_velociraptor.Flow.Served.{IsServed, IsPage}
use mcp_velociraptor.Prelude.{
  ℕ, String, Option, none, some, List, [], ◌∷◌, ◌++◌, ◌≡◌, ◌∙◌, ap, refl,
}

-- each line is what `json.dumps` gives for its row, and a line break
abbrev pub AreLines : World → List Json → List (List ℕ) → Type 0
AreLines w [] [] = Unit {0}
AreLines w (row ∷ rows) (line ∷ lines) =
    ((raw : List ℕ) × (w.dumps row ≡ some raw) × (line ≡ raw ++ b'\n' ∷ [])) × AreLines w rows lines
AreLines w [] (line ∷ lines) = ⊥
AreLines w (row ∷ rows) [] = ⊥

-- one page: the answer that was asked for at the cursor, its rows, and the lines of these
pub record IsWritten (w : World) (spec : Spec) (cursor : Option String) (next : Option String)
    (lines : List (List ℕ)) : Type 0 where
  pub payload : Json
  pub rows : List Json
  pub served : IsServed w get_flow_results (page_args spec cursor) payload
  pub page : IsPage cursor payload rows next
  pub as_lines : AreLines w rows lines

-- the lines of all pages from the one at the cursor to the last one, each at the next cursor of the
-- one before
pub data AreWritten (w : World) (spec : Spec) : Option String → List (List ℕ) → Type 0 where
  last :
      {cursor : Option String} {lines : List (List ℕ)}
      → IsWritten w spec cursor none lines
      → AreWritten w spec cursor lines
  after :
      {cursor : Option String} {nxt : String} {lines rest : List (List ℕ)}
      → IsWritten w spec cursor (some nxt) lines
      → AreWritten w spec (some nxt) rest
      → AreWritten w spec cursor (lines ++ rest)

pub append_assoc : (a b c : List (List ℕ)) → (a ++ b) ++ c ≡ a ++ (b ++ c)
append_assoc [] b c = refl
append_assoc (x ∷ a) b c = ap (λ d. x ∷ d) (append_assoc a b c)

pub append_nil : (a : List (List ℕ)) → a ≡ a ++ []
append_nil [] = refl
append_nil (x ∷ a) = ap (λ d. x ∷ d) (append_nil a)

pub lines_of-AreLines :
    (w : World) (rows : List Json) (lines : List (List ℕ))
    → lines_of w rows ≡ some lines
    → AreLines w rows lines
unfolding lines_of
lines_of-AreLines w [] [] h = tt
lines_of-AreLines w [] (l ∷ lines) h = cc h
lines_of-AreLines w (row ∷ rows) lines h =
    of (λ ls k. lines_of-AreLines w rows ls k) lines (w.dumps row) (lines_of w rows) refl refl h
  where
    of :
        ((ls : List (List ℕ)) → lines_of w rows ≡ some ls → AreLines w rows ls)
        → (lines : List (List ℕ)) (x : Option (List ℕ)) (y : Option (List (List ℕ)))
        → w.dumps row ≡ x
        → lines_of w rows ≡ y
        → elim x [
          | none ↦ none
          | some raw ↦ elim y [ none ↦ none | some ls ↦ some ((raw ++ b'\n' ∷ []) ∷ ls) ]
        ]
          ≡ some lines
        → AreLines w (row ∷ rows) lines
    of ih lines none y e f g = cc g
    of ih lines (some raw) none e f g = cc g
    of ih [] (some raw) (some ls) e f g = cc g
    of ih (l ∷ lines) (some raw) (some ls) e f g = ((raw, e, cc g), ih lines (f ∙ ap some (cc g)))
