-- ===== src/Result/Facts.antt =====
-- What an accepted result of velo_transfer/result.py says of its transfer.
use mcp_velociraptor.Protocol.Checks.{first-All, expect-true}
use mcp_velociraptor.Json.Same.{same_json}
use mcp_velociraptor.Paths.Collisions.{neither, not-true}
use mcp_velociraptor.Result.Document.{role_of}
use mcp_velociraptor.Protocol.Snapshot.{is_null}
use mcp_velociraptor.Protocol.Faults.{is_true, item}
use mcp_velociraptor.Json.Proper.{both}
use mcp_velociraptor.Wire.Validate.{is_str_in}
use mcp_velociraptor.Result.Outcome.{
  publication_checks, rejection, pending, is_publication_known, is_false, completion, all_of,
  bindings, required_evidence, receipt_role, is_given, is_cleaned, has_role, published_phases,
  has_receipt, publication,
}
use mcp_velociraptor.Json.{null, bool, int, negative, real, str, arr, obj, is_text, Json}
use mcp_velociraptor.Prelude.{
  arith, ◌⊎◌, ◌||◌, ◌&&◌, All, is_none, all, String, ◌≡◌, ℕ, not, List, Option, Bool, refl, true,
  false, none, some, [], ◌∷◌,
}

-- what a finished transfer shows
pub record IsComplete (d : Json) : Type 0 where
  pub phase : is_text "COMPLETE" (item "phase" d) ≡ true
  published : is_true (item "published_ever" d) ≡ true
  pub verified : is_true (item "destination_verified" d) ≡ true
  pub host_cleaned : is_cleaned "host" d ≡ true
  pub guest_cleaned : is_cleaned "guest" d ≡ true
  pub stable :
      is_str_in
        ("stable_at_required_check" ∷ "changed_after_authorized_release" ∷ [])
        (item "source_stability" d)
      ≡ true
  pub bound : All (λ k. is_null (item k d) ≡ false) bindings
  pub receipt :
      (r : Json) × (role_of receipt_role d ≡ some r)
      × (same_json (item "sha256" r) (item "publication_receipt_sha256" d) ≡ true)
  pub shown : All (λ role. has_role d role ≡ true) required_evidence

-- nothing was published, as far as the result knows
pub record IsUnpublished (d : Json) : Type 0 where
  pub phase : is_str_in published_phases (item "phase" d) ≡ false
  pub last_phase : is_str_in published_phases (item "last_phase" d) ≡ false
  pub digest : is_null (item "publication_receipt_sha256" d) ≡ true
  pub receipt : role_of receipt_role d ≡ none

pub all-true :
    {A : Type 0} (test : A → Bool) (xs : List A) → all test xs ≡ true → All (λ x. test x ≡ true) xs
all-true test [] h = tt
all-true test (x ∷ xs) h = let (e, r) = both (test x) (all test xs) h in (e, all-true test xs r)

is_none-none : {A : Type 0} (x : Option A) → not (is_none x) ≡ false → x ≡ none
is_none-none none h = refl
is_none-none (some a) h = cc h

not-null :
    (d : Json) (ks : List String)
    → All (λ k. is_given d k ≡ true) ks
    → All (λ k. is_null (item k d) ≡ false) ks
not-null d [] h = tt
not-null d (k ∷ ks) (h, hs) = (not-true (is_null (item k d)) h, not-null d ks hs)

receipt-bound :
    (d : Json)
    → publication d ≡ none
    → has_receipt d ≡ true
    → (r : Json) × (role_of receipt_role d ≡ some r)
      × (same_json (item "sha256" r) (item "publication_receipt_sha256" d) ≡ true)
unfolding publication
receipt-bound d h e =
    let (b, _) = first-All (publication_checks d) h in
    bound (role_of receipt_role d) (expect-true _ "result_receipt_mismatch" b) e
  where
    bound :
        (x : Option Json)
        → (elim x [
          | none ↦ true
          | some r ↦ same_json (item "sha256" r) (item "publication_receipt_sha256" d)
        ])
          ≡ true
        → not (is_none x) ≡ true
        → (r : Json) × (x ≡ some r)
          × (same_json (item "sha256" r) (item "publication_receipt_sha256" d) ≡ true)
    bound none b e = cc e
    bound (some r) b e = (r, refl, b)

pub completed : (d : Json) → publication d ≡ none → all_of (completion d) ≡ true → IsComplete d
completed d p h =
    let (phase, (published, (verified, (host, (guest, (stable, (bound, (_, (_, (shown, _)))))))))) =
      all-true (λ b. b) (completion d) h in
    let shown_all = all-true (has_role d) required_evidence shown in
    record {
      phase = phase;
      published = published;
      verified = verified;
      host_cleaned = host;
      guest_cleaned = guest;
      stable = stable;
      bound = not-null d bindings (all-true (is_given d) bindings bound);
      receipt = receipt-bound d p (shown_all.0);
      shown = shown_all;
    }

-- what a refused transfer shows
pub record IsRejected (d : Json) : Type 0 where
  pub phase : is_text "FAILED" (item "phase" d) ≡ true
  published : is_false (item "published_ever" d) ≡ true
  pub unpublished : IsUnpublished d

-- what a published transfer that is not cleaned up shows
pub record IsPending (d : Json) : Type 0 where
  pub phase : is_str_in ("PUBLISHED" ∷ "CLEANING" ∷ []) (item "phase" d) ≡ true
  published : is_true (item "published_ever" d) ≡ true
  pub bound : All (λ k. is_null (item k d) ≡ false) bindings
  pub digest : is_null (item "publication_receipt_sha256" d) ≡ false
  pub uncleaned : is_cleaned "host" d && is_cleaned "guest" d ≡ false

-- What an exit code says of an accepted result.
abbrev pub ExitFacts : Json → ℕ → Type 0
ExitFacts d n =
    ((n ≡ 0) × IsComplete d)
    ⊎ (((n ≡ 2) × IsRejected d)
        ⊎ (((n ≡ 3) × (is_text "COMPLETE" (item "phase" d) ≡ false))
            ⊎ (((n ≡ 4) × (is_str_in ("CONFLICT" ∷ "FAILED" ∷ []) (item "phase" d) ≡ true))
                ⊎ ((n ≡ 5) × IsPending d))))

false-not-true : (v : Json) → is_false v ≡ true → is_true v ≡ false
false-not-true (bool true) h = cc h
false-not-true (bool false) h = refl
false-not-true null h = refl
false-not-true (int n) h = refl
false-not-true (negative n) h = refl
false-not-true (real t) h = refl
false-not-true (str t) h = refl
false-not-true (arr xs) h = refl
false-not-true (obj m) h = refl

unknown-IsUnpublished : (d : Json) → is_publication_known d ≡ false → IsUnpublished d
unknown-IsUnpublished d h =
    let (h₁, receipt) = neither _ (has_receipt d) h in
    let (h₂, digest) = neither _ (not (is_null (item "publication_receipt_sha256" d))) h₁ in
    let (phase, last) =
      neither (is_str_in published_phases (item "phase" d))
        (is_str_in published_phases (item "last_phase" d)) h₂ in
    record {
      phase = phase;
      last_phase = last;
      digest = not-false_true (is_null (item "publication_receipt_sha256" d)) digest;
      receipt = is_none-none (role_of receipt_role d) receipt;
    }
  where
    not-false_true : (b : Bool) → not b ≡ false → b ≡ true
    not-false_true true h = refl
    not-false_true false h = cc h

module _ (d : Json) (h : publication d ≡ none) where
  -- a result that does not say "published" knows of no publication
  pub unpublished : is_true (item "published_ever" d) ≡ false → IsUnpublished d
  unfolding publication
  unpublished e =
      let (_, (k, _)) = first-All (publication_checks d) h in
      unknown-IsUnpublished d (
        unknown (is_publication_known d) (is_true (item "published_ever" d)) e
          (expect-true _ "result_publication_contradiction" k))
    where
      unknown : (a b : Bool) → b ≡ false → not a || b ≡ true → a ≡ false
      unknown a b e k = ground arith

  -- one that says so names its parties, its package and its request
  published-bound :
      is_true (item "published_ever" d) ≡ true → All (λ k. is_null (item k d) ≡ false) bindings
  unfolding publication
  published-bound e =
      let (_, (_, (k, _))) = first-All (publication_checks d) h in
      not-null d bindings (
        all-true (is_given d) bindings (
          follows (is_true (item "published_ever" d)) (all (is_given d) bindings) e
            (expect-true _ "result_publication_binding_missing" k)))
    where
      follows : (a b : Bool) → a ≡ true → not a || b ≡ true → b ≡ true
      follows a b e k = ground arith

  pub rejected : all_of (rejection d) ≡ true → IsRejected d
  rejected r =
      let (phase, (published, _)) = all-true (λ b. b) (rejection d) r in
      record {
        phase = phase;
        published = published;
        unpublished = unpublished (false-not-true (item "published_ever" d) published);
      }

  pub waiting : all_of (pending d) ≡ true → IsPending d
  waiting r =
      let (phase, (published, (digest, (uncleaned, _)))) = all-true (λ b. b) (pending d) r in
      record {
        phase = phase;
        published = published;
        bound = published-bound published;
        digest = not-true (is_null (item "publication_receipt_sha256" d)) digest;
        uncleaned = not-true (is_cleaned "host" d && is_cleaned "guest" d) uncleaned;
      }
