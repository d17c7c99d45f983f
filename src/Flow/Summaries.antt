-- ===== src/Flow/Summaries.antt =====
-- `build_summary` of velo_flow/coordinator.py, about the part of the sample in the summary.
use mcp_velociraptor.Proc.{some_or}
use mcp_velociraptor.Proc.Triple.{Ends}
use mcp_velociraptor.Flow.Coordinator.{RunResult}
use mcp_velociraptor.Flow.Model.{summary_overflow, failed, stop, Stop, result_json_limit, Run, Spec}
use mcp_velociraptor.Prelude.{
  length-take-le_length, ◌+◌, [], length, Bool-cases, refl, subst, false, ◌≡◌, none, inr, ◌⊎◌, zero,
  take, some, inl, arith, ◌≤◌, ◌<◌, suc, leb, Option, ℕ,
}
use mcp_velociraptor.Flow.Summary.{build_summary, summary_of, shrink, Summary}

module _ (size : Summary → ℕ) (spec : Spec) (s : Run) (result : RunResult) where
  abbrev Fits : ℕ → Type 0
  Fits k = size (summary_of spec s result (take k s.sample_rows)) ≤ result_json_limit

  -- The first k rows are the longest part of the first n that fits.
  pub record IsLongest (n k : ℕ) : Type 0 where
    pub short : k ≤ n
    pub fits : Fits k
    pub longest : (m : ℕ) → k < m → m ≤ n → ¬ Fits m

  abbrev Shrunk : ℕ → Option Summary → Type 0
  Shrunk n (some t) =
      (k : ℕ) × IsLongest n k × (t ≡ summary_of spec s result (take k s.sample_rows))
  Shrunk n none = (m : ℕ) → m ≤ n → ¬ Fits m

  not_above : (m : ℕ) → 0 < m → m ≤ 0 → ¬ Fits m
  not_above m h k = absurd (omega arith)

  below_or_top : (m n : ℕ) → m ≤ suc n → (m ≤ n) ⊎ (m ≡ suc n)
  below_or_top m n h = grind arith

  extend : (n k : ℕ) → IsLongest n k → ¬ Fits (suc n) → (m : ℕ) → k < m → m ≤ suc n → ¬ Fits m
  extend n k l over m above below = elim (below_or_top m n below) [
    | inl b ↦ l.longest m above b
    | inr e ↦ λ f. over (subst Fits e f)
  ]

  extend_none :
      (n : ℕ) → ((m : ℕ) → m ≤ n → ¬ Fits m) → ¬ Fits (suc n) → (m : ℕ) → m ≤ suc n → ¬ Fits m
  extend_none n l over m below = elim (below_or_top m n below) [
    | inl b ↦ l m b
    | inr e ↦ λ f. over (subst Fits e f)
  ]

  too_long : (k : ℕ) → leb k result_json_limit ≡ false → ¬ (k ≤ result_json_limit)
  too_long k h f = ground arith

  Shrunk-more : (n : ℕ) (o : Option Summary) → Shrunk n o → ¬ Fits (suc n) → Shrunk (suc n) o
  Shrunk-more n (some t) (k, l, e) over =
      (k, record { short = omega (arith, l.short); fits = l.fits; longest = extend n k l over }, e)
  Shrunk-more n none h over = extend_none n h over

  shrink-Shrunk : (n : ℕ) → Shrunk n (shrink size spec s result n)
  unfolding shrink
  shrink-Shrunk zero =
      elim (Bool-cases (leb (size (summary_of spec s result [])) result_json_limit)) [
        | inl fits ↦
            rw fits
              (0, record { short = omega arith; fits = ground arith; longest = not_above }, refl)
        | inr over ↦
            rw over (λ m below f. let z : m ≡ 0 = omega arith in too_long _ over (subst Fits z f))
      ]
  shrink-Shrunk (suc n) =
      elim (Bool-cases
        (leb (size (summary_of spec s result (take (suc n) s.sample_rows))) result_json_limit)) [
          | inl fits ↦ rw fits (
            suc n,
            record {
              short = omega arith;
              fits = ground arith;
              longest = λ m above below. absurd (omega arith);
            },
            refl,
          )
          | inr over ↦ rw over (Shrunk-more n _ (shrink-Shrunk n) (too_long _ over))
        ]

  abbrev Built : Summary → Run → Type 0
  Built t s' =
      (k : ℕ) × IsLongest (length s.sample_rows) k
      × (t ≡ summary_of spec s result (take k s.sample_rows))
      × (t.sample_omitted_count + length t.sample_rows ≡ s.rows_saved)
      × (s' ≡ s)

  abbrev Overflowed : Stop → Run → Type 0
  Overflowed e s' =
      (e ≡ stop failed summary_overflow)
      × ((m : ℕ) → m ≤ length s.sample_rows → ¬ Fits m)
      × (s' ≡ s)

  built :
      (o : Option Summary)
      → length s.sample_rows ≤ s.rows_saved
      → Shrunk (length s.sample_rows) o
      → Ends Built Overflowed (some_or (stop failed summary_overflow) o s)
  built (some t) le (k, l, e) =
      (k, l, e, rw e (omega (arith, length-take-le_length k s.sample_rows)), refl)
  built none le h = (refl, h, refl)

  -- For a sample no longer than the saved rows: the summary that is built has the longest first
  -- part of the sample with which its size is within the limit, and counts each saved row either
  -- in the sample or as omitted; where no part fits, not even the empty one, it is refused with
  -- `summary_overflow`. The run is unchanged.
  pub build_summary_longest :
      length s.sample_rows ≤ s.rows_saved → Ends Built Overflowed (build_summary size spec result s)
  unfolding build_summary
  build_summary_longest le = built _ le (shrink-Shrunk (length s.sample_rows))
