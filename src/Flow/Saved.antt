-- ===== src/Flow/Saved.antt =====
-- The saved pages and rows of velo_flow/coordinator.py, at each point of the loop over pages.
use mcp_velociraptor.Bytes.{total-append, total}
use mcp_velociraptor.Proc.Keeps.{Keeps-weaken}
use mcp_velociraptor.Proc.Triple.{Triple-bind, Triple}
use mcp_velociraptor.Flow.Pages.{add_sample, saved}
use mcp_velociraptor.Flow.Sink.{add_row, append_rows}
use mcp_velociraptor.Json.{Json}
use mcp_velociraptor.Flow.Frame.{write-Keeps, collected, Collected}
use mcp_velociraptor.Flow.Model.{World, Stop, Run, Spec}
use mcp_velociraptor.Prelude.{
  ◌≤◌, ◌≡◌, ◌<◌, ◌+◌, length-append, ◌∷◌, suc, length, arith, [], ℕ, List,
}

-- What holds at any time, also after an exception.
pub record IsSaved (spec : Spec) (c : Collected) : Type 0 where
  pub counted : c.rows_bytes ≡ total c.rows
  pub within : c.rows_bytes ≤ spec.max_result_bytes
  pub pages_le : c.pages_saved ≤ c.pages_fetched
  pub rows_le : c.rows_saved ≤ c.rows_fetched
  pub sample_within : length c.sample_rows ≤ spec.sample_rows
  pub sample_le : length c.sample_rows ≤ c.rows_saved

-- What holds between two pages: all that was fetched is in the file.
pub record IsExact (spec : Spec) (c : Collected) : Type 0 where
  pub counted : c.rows_bytes ≡ total c.rows
  pub within : c.rows_bytes ≤ spec.max_result_bytes
  pub pages_eq : c.pages_saved ≡ c.pages_fetched
  pub rows_eq : c.rows_saved ≡ c.rows_fetched
  pub lines_eq : length c.rows ≡ c.rows_saved
  pub sample_within : length c.sample_rows ≤ spec.sample_rows
  pub sample_le : length c.sample_rows ≤ c.rows_saved

-- Amid a page of n rows, when `lines` are still to be written.
pub record IsPending (spec : Spec) (n : ℕ) (lines : List (List ℕ)) (c : Collected) : Type 0 where
  pub counted : c.rows_bytes ≡ total c.rows
  pub within : c.rows_bytes + total lines ≤ spec.max_result_bytes
  pub pages_eq : c.pages_saved + 1 ≡ c.pages_fetched
  pub rows_eq : c.rows_saved + n ≡ c.rows_fetched
  pub lines_eq : length c.rows + length lines ≡ c.rows_saved + n
  pub sample_within : length c.sample_rows ≤ spec.sample_rows
  pub sample_le : length c.sample_rows ≤ c.rows_saved

-- After the page is saved, when n of its rows may still go to the sample.
pub record IsSampling (spec : Spec) (n : ℕ) (c : Collected) : Type 0 where
  pub exact : IsExact spec c
  pub room : length c.sample_rows + n ≤ c.rows_saved

pub IsExact-IsSaved : (spec : Spec) {c : Collected} → IsExact spec c → IsSaved spec c
IsExact-IsSaved spec e = ground arith

pub IsPending-IsSaved :
    (spec : Spec) (n : ℕ) (lines : List (List ℕ)) {c : Collected}
    → IsPending spec n lines c
    → IsSaved spec c
IsPending-IsSaved spec n lines e = ground arith

module _ (spec : Spec) where
  abbrev Saved : Stop → Run → Type 0
  Saved e s = IsSaved spec (collected s)

  abbrev Exact : Run → Type 0
  Exact s = IsExact spec (collected s)

  abbrev pub Pending : ℕ → List (List ℕ) → Run → Type 0
  Pending n lines s = IsPending spec n lines (collected s)

  add_row-Pending :
      (n : ℕ) (line : List ℕ) (lines : List (List ℕ)) (s : Run)
      → Pending n (line ∷ lines) s
      → Pending n lines (add_row line s)
  add_row-Pending n line lines s h =
      ground (arith, total-append s.rows (line ∷ []), length-append s.rows (line ∷ []))

  pub append_rows-Pending :
      (w : World) (n : ℕ) (lines : List (List ℕ))
      → Triple (Pending n lines) (append_rows w lines) (λ _ s. Pending n [] s) Saved
  unfolding append_rows
  append_rows-Pending w n [] = record { at = λ s h. h }
  append_rows-Pending w n (line ∷ lines) =
      Triple-bind
        (Keeps-weaken (write-Keeps (IsPending spec n (line ∷ lines)) w)
          (λ e s h. IsPending-IsSaved spec n (line ∷ lines) h))
        λ _.
          Triple-bind (record { at = add_row-Pending n line lines })
            λ _. append_rows-Pending w n lines

  pub save-Pending : (n : ℕ) (s : Run) → Pending n [] s → IsSampling spec n (collected (saved n s))
  save-Pending n s h = ground arith

  pub add_sample-IsSampling :
      (row : Json) (n : ℕ) (s : Run)
      → length s.sample_rows < spec.sample_rows
      → IsSampling spec (suc n) (collected s)
      → IsSampling spec n (collected (add_sample row s))
  add_sample-IsSampling row n s room h = ground (arith, length-append s.sample_rows (row ∷ []))

  pub IsSampling-less : (n : ℕ) (c : Collected) → IsSampling spec (suc n) c → IsSampling spec n c
  IsSampling-less n c h = ground arith
