-- ===== src/Flow/Collecting.antt =====
-- The loop over pages of velo_flow/coordinator.py, about the rows in the file.
use mcp_velociraptor.Bytes.{total}
use mcp_velociraptor.Proc.{pure, modify}
use mcp_velociraptor.Proc.Keeps.{Keeps-weaken}
use mcp_velociraptor.Flow.Frame.{write-Keeps, collected}
use mcp_velociraptor.Proc.Triple.{
  Triple-raise, Triple-mono, Triple-pure, Triple-modify, Triple-if, Triple-some_or, Triple-gets,
  Triple-bind, Triple,
}
use mcp_velociraptor.Json.{Json}
use mcp_velociraptor.Flow.Saved.{
  IsSampling-less, save-Pending, add_sample-IsSampling, IsPending-IsSaved, IsPending,
  append_rows-Pending, Pending, IsSaved, IsSampling, IsExact-IsSaved, IsExact,
}
use mcp_velociraptor.Flow.Pages.{
  fits_sample, add_sample, unread, save_page, lines_of, extend_sample,
}
use mcp_velociraptor.Flow.Sink.{append_rows_page}
use mcp_velociraptor.Prelude.{
  inr, inl, ap, Option-cases, if◌then◌else◌, arith, ◌+◌, suc, some, ltb, false, [], ◌≡◌, ◌∷◌, ◌<◌,
  leb, length, String, ℕ, Option, List, Bool,
}
use mcp_velociraptor.Flow.Model.{crash, Stop, Run, Spec, World}

module _ (w : World) (spec : Spec) where
  abbrev pub Exact : Run → Type 0
  Exact s = IsExact spec (collected s)

  abbrev pub Saved : Stop → Run → Type 0
  Saved e s = IsSaved spec (collected s)

  abbrev pub Sampling : ℕ → Run → Type 0
  Sampling n s = IsSampling spec n (collected s)

  pub Exact-Saved : (e : Stop) (s : Run) → Exact s → Saved e s
  Exact-Saved e s h = IsExact-IsSaved spec h

  Sampling-Saved : (n : ℕ) (e : Stop) (s : Run) → Sampling n s → Saved e s
  Sampling-Saved n e s h = IsExact-IsSaved spec h.exact

  add_one :
      (b : Bool) (row : Json) (n : ℕ)
      → Triple
          (λ s. (length s.sample_rows < spec.sample_rows) × Sampling (suc n) s)
          (if b then modify (add_sample row) else pure tt)
          (λ _ s. Sampling n s)
          Saved
  add_one b row n =
      Triple-if b (λ _. Triple-modify _ λ s h. add_sample-IsSampling spec row n s h.0 h.1)
        (λ _. Triple-pure _ λ s h. IsSampling-less spec n (collected s) h.1)

  room_left :
      (sample : List Json) (s : Run)
      → leb spec.sample_rows (length sample) ≡ false
      → sample ≡ s.sample_rows
      → length s.sample_rows < spec.sample_rows
  room_left sample s more e = ground (arith, ap (length {A = Json}) e)

  extend_sample-Exact :
      (rows : List Json)
      → Triple (Sampling (length rows)) (extend_sample w spec rows) (λ _ s. Exact s) Saved
  unfolding extend_sample
  extend_sample-Exact [] = record { at = λ s h. h.exact }
  extend_sample-Exact (row ∷ rows) = Triple-bind (Triple-gets _) λ sample.
      Triple-if (leb spec.sample_rows (length sample)) (λ _. Triple-pure _ λ s h. h.1.exact)
        λ more.
          Triple-bind (Triple-some_or _ _ λ s h. Sampling-Saved (suc (length rows)) crash s h.1)
            λ projected.
              Triple-bind
                (Triple-mono (add_one (fits_sample w projected) projected (length rows))
                  (λ s h. (room_left sample s more h.1.0, h.1.1)) (λ _ s h. h) (λ e s h. h))
                λ _. extend_sample-Exact rows

  -- a page that was fetched and is not yet in the file
  pub record IsFetched (n : ℕ) (s : Run) : Type 0 where
    pub kept : IsSaved spec (collected s)
    pub pages_eq : s.pages_saved + 1 ≡ s.pages_fetched
    pub rows_eq : s.rows_saved + n ≡ s.rows_fetched
    pub lines_eq : length s.rows ≡ s.rows_saved

  lines_of-length :
      (rows : List Json) (lines : List (List ℕ))
      → lines_of w rows ≡ some lines
      → length lines ≡ length rows
  unfolding lines_of
  lines_of-length [] lines h = ground arith
  lines_of-length (row ∷ rows) lines h = elim (Option-cases (w.dumps row)) [
    | inl e ↦ ground (arith, e, h)
    | inr (raw, e) ↦ elim (Option-cases (lines_of w rows)) [
      | inl e' ↦ ground (arith, e, e', h)
      | inr (rest, e') ↦ ground (arith, e, e', h, lines_of-length rows rest e')
    ]
  ]

  append_rows_page-Pending :
      (n : ℕ) (lines : List (List ℕ))
      → Triple (Pending spec n lines) (append_rows_page w lines) (λ _ s. Pending spec n [] s) Saved
  unfolding append_rows_page
  append_rows_page-Pending n lines =
      Triple-bind (append_rows-Pending spec w n lines) λ _.
        Keeps-weaken (write-Keeps (IsPending spec n []) w) λ e s h. IsPending-IsSaved spec n [] h

  start_page :
      (n used : ℕ) (lines : List (List ℕ)) (s : Run)
      → length lines ≡ n
      → used ≡ s.rows_bytes
      → ltb spec.max_result_bytes (used + total lines) ≡ false
      → IsFetched n s
      → Pending spec n lines s
  start_page n used lines s e u fits h = ground arith

  pub unread-Saved :
      (c : Option String) (s : Run)
      → IsSaved spec (collected s)
      → IsSaved spec (collected (unread c s))
  unread-Saved c s h = ground arith

  pub save_page-Exact :
      (echo : String) (rows : List Json)
      → Triple (IsFetched (length rows)) (save_page w spec echo rows) (λ _ s. Exact s) Saved
  unfolding save_page
  save_page-Exact echo rows = Triple-bind (Triple-some_or _ _ λ s h. h.kept) λ lines.
      Triple-bind (Triple-gets _) λ used.
        Triple-if (ltb spec.max_result_bytes (used + total lines))
          (λ _.
            Triple-bind
              (Triple-modify {Q = λ _ s. Saved crash s} _
                λ s h. unread-Saved (some echo) s h.1.1.kept)
              λ _. Triple-raise _ λ s h. h)
          λ fits.
            Triple-bind
              (Triple-mono (append_rows_page-Pending (length rows) lines)
                (λ s h.
                  start_page (length rows) used lines s (lines_of-length rows lines h.1.0) h.0 fits
                    h.1.1)
                (λ _ s h. h) (λ e s h. h))
              λ _.
                Triple-bind
                  (Triple-modify {Q = λ _ s. Sampling (length rows) s} _
                    λ s h. save-Pending spec (length rows) s h)
                  λ _. extend_sample-Exact rows
