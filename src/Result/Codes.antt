-- ===== src/Result/Codes.antt =====
-- The exit codes of velo_transfer/result.py, its files and its round trip.
use mcp_velociraptor.Json.Proper.{both}
use mcp_velociraptor.Protocol.Checks.{expect-true, checked-inversion, first-All}
use mcp_velociraptor.Text.{same_text_refl, same_text}
use mcp_velociraptor.Result.Document.{field_checks, validate_fields}
use mcp_velociraptor.Result.Outcome.{
  outcome_checks, result_checks, exit_code, publication, check_result, validate_result,
  result_exit_code, outcome,
}
use mcp_velociraptor.Wire.Validate.{is_str_in}
use mcp_velociraptor.Protocol.Faults.{item, Fault, Check}
use mcp_velociraptor.Result.{Outside}
use text.Mathlib.Text.{◌==◌ as str_eq}
use mcp_velociraptor.Result.Document.{outcomes}
use mcp_velociraptor.Prelude.{
  ◌∙◌, subst, not, ◌||◌, All, ◌⊎◌, sym, ap, any, ◌≡◌, ℕ, String, List, Bool, refl, if◌then◌else◌,
  true, false, none, [], ◌∷◌, inl, inr, arith,
}
use mcp_velociraptor.Json.{is_text, Json, null, bool, int, negative, real, str, arr, obj}
use mcp_velociraptor.Result.Facts.{rejected, completed, waiting, ExitFacts}

str_eq_swap : (s t : String) → str_eq s t ≡ true → str_eq t s ≡ true
str_eq_swap s t h = ap (λ v. str_eq v s) (sym (same_text s t h)) ∙ same_text_refl s

-- the two ways to ask for one of some texts
in-is_text :
    (names : List String) (v : Json)
    → is_str_in names v ≡ true
    → any (λ n. is_text n v) names ≡ true
in-is_text names (str s) h = each names h
  where
    step :
        (a b c x : Bool)
        → (a ≡ true → b ≡ true)
        → (x ≡ true → c ≡ true)
        → a || x ≡ true
        → b || c ≡ true
    step true b c x f g k = rw (f refl) refl
    step false true c x f g k = refl
    step false false c x f g k = g k

    each : (ns : List String) → any (λ n. str_eq n s) ns ≡ true → any (λ n. str_eq s n) ns ≡ true
    each [] k = k
    each (n ∷ ns) k =
        step (str_eq n s) (str_eq s n) (any (λ m. str_eq s m) ns) (any (λ m. str_eq m s) ns)
          (str_eq_swap n s) (each ns) k
in-is_text names null h = cc h
in-is_text names (bool b) h = cc h
in-is_text names (int n) h = cc h
in-is_text names (negative n) h = cc h
in-is_text names (real t) h = cc h
in-is_text names (arr xs) h = cc h
in-is_text names (obj m) h = cc h

abbrev code_by : Bool → Bool → Bool → Bool → ℕ
code_by c r i f = if c then 0 else if r then 2 else if i then 3 else if f then 4 else 5

abbrev check_by : Bool → Bool → Bool → Bool → Bool → Check → Check → Check → Check → Check
check_by c r i f p C R F P =
    if c then C else if r then R else if i then none else if f then F else if p then P else none

-- each outcome's code with its check, for any tests of the outcomes
branch :
    (c r i f p : Bool) (C R F P : Check)
    → any (λ b. b) (c ∷ r ∷ i ∷ f ∷ p ∷ []) ≡ true
    → check_by c r i f p C R F P ≡ none
    → ((code_by c r i f ≡ 0) × (C ≡ none))
      ⊎ (((code_by c r i f ≡ 2) × (R ≡ none))
          ⊎ (((code_by c r i f ≡ 3) × (c ≡ false))
              ⊎ (((code_by c r i f ≡ 4) × (F ≡ none)) ⊎ ((code_by c r i f ≡ 5) × (P ≡ none)))))
branch true r i f p C R F P k h = inl (refl, h)
branch false true i f p C R F P k h = inr (inl (refl, h))
branch false false true f p C R F P k h = inr (inr (inl (refl, refl)))
branch false false false true p C R F P k h = inr (inr (inr (inl (refl, h))))
branch false false false false true C R F P k h = inr (inr (inr (inr (refl, h))))
branch false false false false false C R F P k h = cc k

unfinished : (a b : Bool) → b ≡ false → not a || b ≡ true → a ≡ false
unfinished a b e k = ground arith

module _ (o : Outside) (max_files max_metadata_bytes : ℕ) where
  -- the checks that an accepted result has passed
  pub accepted :
      (d v : Json)
      → validate_result o max_files max_metadata_bytes d ≡ inl v
      → All (λ c. c ≡ none) (result_checks o max_files max_metadata_bytes d) × (d ≡ v)
  unfolding validate_result check_result
  accepted d v h =
      let (c, e) = checked-inversion (check_result o max_files max_metadata_bytes d) d v h in
      (first-All (result_checks o max_files max_metadata_bytes d) c, e)

  has_outcome :
      (d : Json)
      → validate_fields o max_files max_metadata_bytes d ≡ none
      → any (λ n. is_text n (item "outcome" d)) outcomes ≡ true
  unfolding validate_fields
  has_outcome d h =
      let (_, (status, _)) = first-All (field_checks o max_files max_metadata_bytes d) h in
      in-is_text outcomes (item "outcome" d)
        (both (is_text "velo.transfer.result.v1" (item "schema" d)) _
          (expect-true _ "invalid_result_status" status)).1

  exit_facts :
      (d : Json)
      → validate_fields o max_files max_metadata_bytes d ≡ none
      → publication d ≡ none
      → outcome d ≡ none
      → ExitFacts d (exit_code (item "outcome" d))
  unfolding outcome
  exit_facts d f p u =
      let (k, (c, _)) = first-All (outcome_checks d) u in
      let w = item "outcome" d in
      elim (branch (is_text "complete" w) (is_text "rejected" w) (is_text "incomplete" w)
        (is_text "conflict" w) (is_text "cleanup_pending" w) _ _ _ _ (has_outcome d f) c) [
          | inl (e, h) ↦ inl (e, completed d p (expect-true _ "result_completion_unproven" h))
          | inr (inl (e, h)) ↦
              inr (inl (e, rejected d p (expect-true _ "result_outcome_conflict" h)))
          | inr (inr (inl (e, h))) ↦ inr (
              inr (
                inl (
                  e,
                  unfinished (is_text "COMPLETE" (item "phase" d)) (is_text "complete" w) h
                      (expect-true _ "result_outcome_conflict" k),
                )))
          | inr (inr (inr (inl (e, h)))) ↦
              inr (inr (inr (inl (e, expect-true _ "result_outcome_conflict" h))))
          | inr (inr (inr (inr (e, h)))) ↦
              inr (inr (inr (inr (e, waiting d p (expect-true _ "result_outcome_conflict" h)))))
        ]

  -- Where `result_exit_code` returns: 0 says that the result shows a complete transfer, 2 a refused
  -- one that published nothing, 3 that the phase is not COMPLETE, 4 that it is CONFLICT or FAILED, 5 a
  -- published one that is not cleaned up; and it returns no other code.
  pub exit_code-facts :
      (d : Json) (n : ℕ) → result_exit_code o max_files max_metadata_bytes d ≡ inl n → ExitFacts d n
  unfolding result_exit_code
  exit_code-facts d n h = of (validate_result o max_files max_metadata_bytes d) refl h
    where
      of :
          (x : Json ⊎ Fault)
          → validate_result o max_files max_metadata_bytes d ≡ x
          → (elim x [ inl v ↦ inl (exit_code (item "outcome" v)) | inr e ↦ inr e ]) ≡ inl n
          → ExitFacts d n
      of (inr e) k h = cc h
      of (inl v) k h =
          let ((_, (_, (_, (f, (p, (u, _)))))), e) = accepted d v k in
          subst (ExitFacts d) (cc (h, ap (λ x. exit_code (item "outcome" x)) e))
            (exit_facts d f p u)
