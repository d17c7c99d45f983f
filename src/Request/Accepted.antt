-- ===== src/Request/Accepted.antt =====
-- The requests that `load_request` of velo_transfer/request.py returns.
use mcp_velociraptor.Protocol.Receipts.{checked}
use mcp_velociraptor.Result.Outcome.{Parse}
use mcp_velociraptor.Paths.{check_relative}
use mcp_velociraptor.Flow.Request.{text_of}
use mcp_velociraptor.Text.{is_id}
use mcp_velociraptor.Request.Sources.{sources-check_collisions}
use mcp_velociraptor.Request.Members.{or_null, find-put_other, item-set_item, item-set_item_other}
use mcp_velociraptor.Json.Proper.{both}
use mcp_velociraptor.Paths.Apart.{AllApart, check_collisions_iff, AllRelative}
use mcp_velociraptor.Protocol.Checks.{checked-inversion, expect-true, first-All}
use mcp_velociraptor.Request.{
  posix, name, budget_checks, evidence_checks, amount, list_of, is_timeout, validate_budget,
  evidence, Library,
}
use mcp_velociraptor.Protocol.Faults.{Fault, expect, item, is_true, first, Check}
use text.Mathlib.Text.{◌==◌ as str_eq}
use mcp_velociraptor.Prelude.{
  List, inl, inr, not, ap, ◌⊎◌, sym, subst, map, ◌&&◌, Option, ◌≤◌, ◌∙◌, leb, ℕ, ◌≡◌, length,
  String, refl, true, false, none, some, [], ◌∷◌, arith,
}
use mcp_velociraptor.Json.{
  null, arr, real, negative, int, put, find, obj, Members, get, Json, bool, str,
}
use mcp_velociraptor.Request.Document.{
  host_request, parse, HostRequest, last_checks, and_then, validate_document, load_request,
  is_transfer_id, normal_uuid, transfer_check, given_id, set_item, is_push, set_default,
  document_checks, completed,
}

none-check : (c e : Check) → first (c ∷ e ∷ []) ≡ none → (c ≡ none) × (e ≡ none)
none-check c e h = let (a, (b, _)) = first-All (c ∷ e ∷ []) h in (a, b)

pub and_then-inversion :
    {A B : Type 0} (x : A ⊎ Fault) (f : A → B ⊎ Fault) (b : B)
    → and_then x f ≡ inl b
    → (a : A) × ((x ≡ inl a) × (f a ≡ inl b))
and_then-inversion (inl a) f b h = (a, (refl, h))
and_then-inversion (inr e) f b h = cc h

module _ (l : Library) where
  item-set_default_other :
      (k j : String) (w d : Json) → str_eq j k ≡ false → item k (set_default l j w d) ≡ item k d
  item-set_default_other k j w d h = of (get j d)
    where
      of : (o : Option Json) → item k (elim o [ none ↦ set_item j w d | some v ↦ d ]) ≡ item k d
      of none = item-set_item_other k j w d h
      of (some v) = refl

  -- the other fields of a document stay
  item-completed :
      (fresh k : String) (d : Json)
      → str_eq "resume" k ≡ false
      → str_eq "transfer_id" k ≡ false
      → str_eq "expected_vm_identity" k ≡ false
      → item k (completed l fresh d) ≡ item k d
  unfolding completed
  item-completed fresh k d a b c =
      item-set_default_other k "resume" (bool false) _ a
      ∙ (item-set_default_other k "transfer_id" (str fresh) _ b
          ∙ item-set_item_other k "expected_vm_identity" _ d c)

  -- what a document has that was accepted, of its sources, its budget and its evidence
  pub record IsValid (sources limits evidence_context : Json) : Type 0 where
    pub few : length (list_of sources) ≤ amount (item "max_files" limits)
    pub relative : AllRelative l.unicode (map name (list_of sources))
    pub apart : AllApart l.unicode (map l.unicode.casefold (map name (list_of sources)))
    pub ended : is_true (item "producer_complete" evidence_context) ≡ true
    pub quiet : is_true (item "producer_quiescent" evidence_context) ≡ true
    pub timely :
        is_timeout l
          (amount (item "max_duration_seconds" limits))
          (item "request_timeout_seconds" limits)
        ≡ true

  abbrev pub ValidDocument : Json → Type 0
  ValidDocument d = IsValid (item "sources" d) (item "budget" d) (item "evidence_context" d)

  budget-timely :
      (v : Json)
      → validate_budget l v ≡ none
      → is_timeout l (amount (item "max_duration_seconds" v)) (item "request_timeout_seconds" v)
        ≡ true
  unfolding validate_budget
  budget-timely v h =
      let (_, (_, (t, _))) = first-All (budget_checks l v) h in expect-true _ "invalid_budget" t

  evidence-ended :
      (v : Json)
      → evidence v ≡ none
      → (is_true (item "producer_complete" v) ≡ true)
        × (is_true (item "producer_quiescent" v) ≡ true)
  unfolding evidence
  evidence-ended v h =
      let (_, (t, _)) = first-All (evidence_checks v) h in
      let (k, _) =
        both (is_true (item "producer_complete" v) && is_true (item "producer_quiescent" v)) _
          (expect-true _ "producer_evidence_missing" t) in
      both (is_true (item "producer_complete" v)) _ k

  pub document-ValidDocument : (d : Json) → first (document_checks l d) ≡ none → ValidDocument d
  document-ValidDocument d h =
      let (_, (_, (b, (_, (n, (e, (_, (s, _)))))))) = first-All (document_checks l d) h in
      let (ended, quiet) = evidence-ended (item "evidence_context" d) e in
      let (_, c) =
        (sources-check_collisions l.unicode (is_push l d) (list_of (item "sources" d))).0 s in
      let (relative, apart) =
        (check_collisions_iff l.unicode (map name (list_of (item "sources" d)))).0 c in
      record {
        few = at_most _ _ (expect-true _ "file_count_exceeded" n);
        relative = relative;
        apart = apart;
        ended = ended;
        quiet = quiet;
        timely = budget-timely (item "budget" d) b;
      }
    where
      at_most : (a b : ℕ) → leb a b ≡ true → a ≤ b
      at_most a b h = ground arith

  completed-ValidDocument :
      (fresh : String) (d : Json) → ValidDocument d → ValidDocument (completed l fresh d)
  completed-ValidDocument fresh d h =
      subst
        (λ s.
          IsValid s (item "budget" (completed l fresh d))
            (item "evidence_context" (completed l fresh d)))
        (sym (item-completed fresh "sources" d refl refl refl))
        (subst (λ b. IsValid (item "sources" d) b (item "evidence_context" (completed l fresh d)))
          (sym (item-completed fresh "budget" d refl refl refl))
          (subst (λ e. IsValid (item "sources" d) (item "budget" d) e)
            (sym (item-completed fresh "evidence_context" d refl refl refl)) h))

  -- the name of the transfer is a valid one, or the fresh one
  abbrev pub IsNamed : String → String → Type 0
  IsNamed fresh i = (is_id i ≡ true) ⊎ (i ≡ fresh)

  item-set_default :
      (k : String) (w : Json) (m : Members)
      → item k (set_default l k w (obj m)) ≡ elim (find k m) [ none ↦ w | some v ↦ v ]
  item-set_default k w m = of (find k m) refl
    where
      of :
          (o : Option Json)
          → find k m ≡ o
          → item k (elim o [ none ↦ set_item k w (obj m) | some v ↦ obj m ])
            ≡ elim o [ none ↦ w | some v ↦ v ]
      of none e = item-set_item k w m
      of (some v) e = ap or_null e

  transfer-IsNamed :
      (fresh : String) (m : Members)
      → transfer_check l (obj m) ≡ none
      → IsNamed fresh (text_of (item "transfer_id" (completed l fresh (obj m))))
  unfolding completed given_id
  transfer-IsNamed fresh m h =
      subst (λ v. IsNamed fresh (text_of v)) (sym same) (of (find "transfer_id" m) h)
    where
      inner : Members
      inner = put "expected_vm_identity" (normal_uuid l (item "expected_vm_identity" (obj m))) m

      same :
          item "transfer_id" (completed l fresh (obj m))
          ≡ elim (find "transfer_id" m) [ none ↦ str fresh | some v ↦ v ]
      same =
          item-set_default_other "transfer_id" "resume" (bool false)
            (set_default l "transfer_id" (str fresh) (obj inner)) refl
          ∙ (item-set_default "transfer_id" (str fresh) inner
              ∙ ap (λ o. elim o [ none ↦ str fresh | some v ↦ v ])
                  (find-put_other "transfer_id" "expected_vm_identity"
                    (normal_uuid l (item "expected_vm_identity" (obj m))) m refl))

      id_of : (v : Json) → is_transfer_id l v ≡ true → is_id (text_of v) ≡ true
      id_of (str s) k = (both (is_id s) _ k).0
      id_of null k = cc k
      id_of (bool b) k = cc k
      id_of (int n) k = cc k
      id_of (negative n) k = cc k
      id_of (real t) k = cc k
      id_of (arr xs) k = cc k
      id_of (obj n) k = cc k

      of :
          (o : Option Json)
          → elim o [
            | some v ↦ given_id l v
            | none ↦ expect (not (is_true (item "resume" (obj m)))) "resume_requires_transfer_id"
          ]
            ≡ none
          → IsNamed fresh (text_of (elim o [ none ↦ str fresh | some v ↦ v ]))
      of none k = inr refl
      of (some v) k = inl (
          id_of v (
            expect-true _ "invalid_transfer_id"
              (none-check (expect (is_transfer_id l v) "invalid_transfer_id")
                (check_relative l.unicode v) k).0))

  -- a document that was accepted is a dict
  fields-dict :
      (P : Json → Type 0) (d : Json)
      → first (document_checks l d) ≡ none
      → ((m : Members) → P (obj m))
      → P d
  fields-dict P (obj m) h f = f m
  fields-dict P null h f = cc h
  fields-dict P (bool b) h f = cc h
  fields-dict P (int n) h f = cc h
  fields-dict P (negative n) h f = cc h
  fields-dict P (real t) h f = cc h
  fields-dict P (str t) h f = cc h
  fields-dict P (arr xs) h f = cc h

  abbrev Accepted : String → Json → Type 0
  Accepted fresh v = ValidDocument v × IsNamed fresh (text_of (item "transfer_id" v))

  validate_document-Accepted :
      (fresh : String) (d v : Json) → validate_document l fresh d ≡ inl v → Accepted fresh v
  unfolding validate_document
  validate_document-Accepted fresh d v h =
      let (c, e) =
        checked-inversion (first (first (document_checks l d) ∷ first (last_checks l d) ∷ []))
          (completed l fresh d) v h in
      let (a, b) = none-check (first (document_checks l d)) (first (last_checks l d)) c in
      let (t, _) = first-All (last_checks l d) b in
      subst (Accepted fresh) e (
        completed-ValidDocument fresh d (document-ValidDocument d a),
        fields-dict
            (λ x.
              transfer_check l x ≡ none
              → IsNamed fresh (text_of (item "transfer_id" (completed l fresh x))))
            d a (λ m k. transfer-IsNamed fresh m k) t,
      )

  -- A request that `load_request` returns has no more sources than its budget allows, names that do
  -- not collide, complete and quiescent evidence, and a timeout within its duration; its transfer has
  -- a valid name, or the fresh one.
  pub load_request-IsValid :
      (fresh : String) (loads : List ℕ → Parse) (spec : List ℕ ⊎ Fault) (path : Json)
      (r : HostRequest l)
      → load_request l fresh loads spec path ≡ inl r
      → ValidDocument r.document × IsNamed fresh r.transfer_id
  unfolding load_request
  load_request-IsValid fresh loads spec path r h =
      let (_, (_, h₁)) =
        and_then-inversion (checked (posix l.unicode "invalid_spec_path" path) path) _ r h in
      let (raw, (_, h₂)) = and_then-inversion spec _ r h₁ in
      let (d, (_, h₃)) = and_then-inversion (parse l (loads raw)) _ r h₂ in
      let (v, (k, w)) = and_then-inversion (validate_document l fresh d) _ r h₃ in
      let e : host_request l v ≡ r = cc w in
      subst (λ (q : HostRequest l). ValidDocument q.document × IsNamed fresh q.transfer_id) e
        (validate_document-Accepted fresh d v k)
