-- ===== src/Flow/Writing.antt =====
-- The loop over pages of velo_flow/coordinator.py, about the lines that it writes for each page.
use mcp_velociraptor.Flow.Written.{
  AreLines, IsWritten, AreWritten, last, after, append_assoc, append_nil, lines_of-AreLines,
}
use mcp_velociraptor.Bytes.{total}
use mcp_velociraptor.Proc.Gives.{Gives-some_or, Gives-any, Triple-given}
use mcp_velociraptor.Proc.Keeps.{
  Keeps-pure, Keeps-if, Keeps-some_or, Keeps-gets, Keeps-modify, Keeps-weaken, Keeps-bind,
}
use mcp_velociraptor.Proc.Triple.{
  Triple, Keeps, Triple-if, Triple-raise, Triple-modify, Triple-bind, Triple-mono,
}
use mcp_velociraptor.Proc.{modify, ◌>>◌}
use mcp_velociraptor.Json.{Json, contains}
use mcp_velociraptor.Flow.Model.{World, Spec, Run, Stop, Flow, get_flow_results}
use mcp_velociraptor.Flow.Sink.{write, append_rows, append_rows_page, add_row}
use mcp_velociraptor.Flow.Pages.{
  saved, page_args, lines_of, extend_sample, save_page, expected_echo, advance, pages,
  collect_pages,
}
use mcp_velociraptor.Flow.Frame.{Collected, call-Keeps, write-Keeps}
use mcp_velociraptor.Flow.Reads.{warnings_in-Keeps, page_of-Keeps}
use mcp_velociraptor.Flow.Served.{call-Gives, page_of-Gives}
use mcp_velociraptor.Prelude.{
  ◌+◌, subst, ℕ, zero, suc, String, Option, none, some, List, [], ◌∷◌, ◌++◌, ◌≡◌, ◌≢◌, ◌==◌, ◌∙◌,
  sym, ap, refl, ltb, length, arith,
}

module _ (w : World) (spec : Spec) where
  abbrev pub At : List (List ℕ) → Run → Type 0
  At base s = s.rows ≡ base

  abbrev pub AtOf : List (List ℕ) → Collected → Type 0
  AtOf base c = c.rows ≡ base

  abbrev pub Nothing : Stop → Run → Type 0
  Nothing e s = Unit {0}

  append_rows-At :
      (base lines : List (List ℕ))
      → Triple (At base) (append_rows w lines) (λ _ s. At (base ++ lines) s) Nothing
  unfolding append_rows
  append_rows-At base [] = record { at = λ s h. h ∙ append_nil base }
  append_rows-At base (line ∷ lines) =
      Triple-bind (Keeps-weaken (write-Keeps (AtOf base) w) (λ e s h. tt)) λ _.
        Triple-bind
          (Triple-modify {Q = λ _ s. At (base ++ line ∷ []) s} (add_row line)
            (λ s h. ap (λ r. r ++ line ∷ []) h))
          λ _.
            Triple-mono (append_rows-At (base ++ line ∷ []) lines) (λ s h. h)
              (λ _ s h. h ∙ append_assoc base (line ∷ []) lines) (λ e s h. h)

  extend_sample-At :
      (base : List (List ℕ)) (rows : List Json) → Keeps (At base) (extend_sample w spec rows)
  unfolding extend_sample
  extend_sample-At base [] = Keeps-pure tt
  extend_sample-At base (row ∷ rows) = Keeps-bind _ _ (Keeps-gets _) λ sample.
      Keeps-if _ _ _ (Keeps-pure _) (
        Keeps-bind _ _ (Keeps-some_or _ _) λ projected.
          Keeps-bind _ _ (Keeps-if _ _ _ (Keeps-modify _ λ s h. h) (Keeps-pure _))
            λ _. extend_sample-At base rows)

  abbrev Added : List (List ℕ) → List Json → Run → Type 0
  Added base rows s = (lines : List (List ℕ)) × AreLines w rows lines × (s.rows ≡ base ++ lines)

  save_page-Added :
      (base : List (List ℕ)) (echo : String) (rows : List Json)
      → Triple (At base) (save_page w spec echo rows) (λ _ s. Added base rows s) Nothing
  unfolding save_page append_rows_page
  save_page-Added base echo rows =
      Triple-given (Keeps-some_or _ _) (Gives-some_or _ (lines_of w rows)) λ lines e.
        Triple-given (Keeps-gets _) (Gives-any _) λ used _.
          Triple-if (ltb spec.max_result_bytes (used + total lines))
            (λ _.
              Triple-bind (Triple-modify {Q = λ _ s. Unit {0}} _ λ s h. tt)
                λ _. Triple-raise _ λ s h. tt)
            λ _.
              Triple-mono (wrote lines) (λ s h. h)
                (λ _ s h. (lines, lines_of-AreLines w rows lines e, h)) (λ e s h. h)
    where
      wrote :
          (lines : List (List ℕ))
          → Triple
              (At base)
              (do
                append_rows w lines >> write w
                modify (saved (length rows))
                extend_sample w spec rows)
              (λ _ s. At (base ++ lines) s)
              Nothing
      wrote lines =
          Triple-bind
            (Triple-bind (append_rows-At base lines)
              λ _. Keeps-weaken (write-Keeps (AtOf (base ++ lines)) w) (λ e s h. tt))
            λ _.
              Triple-bind (Triple-modify {Q = λ _ s. At (base ++ lines) s} _ λ s h. h)
                λ _. Keeps-weaken (extend_sample-At (base ++ lines) rows) (λ e s h. tt)

  -- the file has the lines from before and those of the pages from the cursor on
  abbrev Collects : List (List ℕ) → Option String → Run → Type 0
  Collects base cursor s =
      (lines : List (List ℕ)) × AreWritten w spec cursor lines × (s.rows ≡ base ++ lines)

  advance-Collects :
      (left : ℕ) (cursor : Option String) (visited : List String) (next : Option String)
      (base lines : List (List ℕ)) (more : String → Flow (Unit {0}))
      → IsWritten w spec cursor next lines
      → (left ≢ 0
          → (nxt : String)
          → Triple
              (At (base ++ lines))
              (more nxt)
              (λ _ s. Collects (base ++ lines) (some nxt) s)
              Nothing)
      → Triple
          (At (base ++ lines))
          (advance left visited next more)
          (λ _ s. Collects base cursor s)
          Nothing
  unfolding advance
  advance-Collects left cursor visited none base lines more p k =
      Triple-modify _ λ s h. (lines, last p, h)
  advance-Collects left cursor visited (some nxt) base lines more p k =
      Triple-if (contains visited nxt) (λ _. Triple-raise _ λ s h. tt)
        λ _.
          Triple-if (left == 0)
            (λ _.
              Triple-bind (Triple-modify {Q = λ _ s. Unit {0}} _ λ s h. tt)
                λ _. Triple-raise _ λ s h. tt)
            λ some_left.
              Triple-mono (k (ground arith) nxt) (λ s h. h)
                (λ _ s (rest, q, e). (lines ++ rest, after p q, e ∙ append_assoc base lines rest))
                (λ e s h. h)

  pages-Collects :
      (left : ℕ) (cursor : Option String) (visited : List String) (base : List (List ℕ))
      → left ≢ 0
      → Triple (At base) (pages left w spec cursor visited) (λ _ s. Collects base cursor s) Nothing
  unfolding pages
  pages-Collects zero cursor visited base h = absurd (h refl)
  pages-Collects (suc left) cursor visited base h =
      Triple-given (call-Keeps (AtOf base) w spec get_flow_results (page_args spec cursor))
        (call-Gives w spec get_flow_results (page_args spec cursor))
        λ payload served.
          Triple-given (page_of-Keeps spec cursor payload) (page_of-Gives spec cursor payload)
            λ page paged. Triple-given (Keeps-modify _ λ s h. h) (Gives-any _) λ _ _.
              Triple-given (warnings_in-Keeps payload) (Gives-any _) λ n _.
                Triple-given (Keeps-modify _ λ s h. h) (Gives-any _) λ _ _.
                  Triple-bind (save_page-Added base (expected_echo cursor) page.0) λ _. record {
                    at = λ s (lines, r, e).
                        (advance-Collects left cursor (expected_echo cursor ∷ visited) page.1 base
                            lines _
                            (record {
                              payload = payload;
                              rows = page.0;
                              served = served;
                              page = paged;
                              as_lines = r;
                            })
                            λ some_left nxt.
                              pages-Collects left (some nxt) (expected_echo cursor ∷ visited)
                                (base ++ lines) some_left).at
                          s e;
                  }

  pub collect_pages-Collects :
      spec.max_pages ≢ 0
      → Triple (At []) (collect_pages w spec) (λ _ s. AreWritten w spec none s.rows) Nothing
  unfolding collect_pages
  collect_pages-Collects some_page =
      Triple-mono (pages-Collects spec.max_pages none [] [] some_page) (λ s h. h)
        (λ _ s (lines, q, e). subst (AreWritten w spec none) (sym e) q) (λ e s h. h)
