-- ===== src/Flow/Requests.antt =====
-- `parse_spec` of velo_flow/spec.py, about the requests that it accepts.
use mcp_velociraptor.Json.Proper.{both}
use mcp_velociraptor.Protocol.Checks.{first-cons, first-All, expect-true}
use mcp_velociraptor.Wire.Validate.{int_between}
use mcp_velociraptor.Protocol.Faults.{item, first, Fault, failing, expect, Check}
use mcp_velociraptor.Flow.Request.{
  get_or, field_checks, time_of, budget_checks, header_checks, finite, is_time, list_of, seconds_of,
  are_field_names, request_of, names_of, integer_of, number, checks, accept, parse_spec,
  parse_loaded, Request, Python, Loaded, loaded, refused, unreadable,
}
use mcp_velociraptor.Prelude.{
  if◌then◌else◌, ◌⊎◌, sym, Option, Bool, [], suc, ltb, ◌||◌, ap, ◌∷◌, arith, ◌==◌, subst, ◌*◌, ◌&&◌,
  ◌≤◌, ◌≡◌, length, leb, String, ℕ, List, refl, true, false, some, none, inl, inr,
}
use mcp_velociraptor.Json.{nil, items, Json, null, bool, int, negative, real, str, arr, obj}

-- The number is at least the first and at most the second one.
abbrev pub Between : ℕ → ℕ → ℕ → Type 0
Between low high n = (low ≤ n) × (n ≤ high)

-- What the fields of a request keep to; times are in units, of which `unit` are a hundredth of a
-- second.
pub record IsRequest (unit : ℕ) (r : Request) : Type 0 where
  pub page_size_in : Between 1 250 r.spec.page_size
  pub sample_rows_in : r.spec.sample_rows ≤ 10
  pub sample_fields_in : length r.spec.sample_fields ≤ 32
  pub deadline_in : Between (10 * unit) (360000 * unit) r.spec.deadline_seconds
  pub timeout_in : Between (1 * unit) (12000 * unit) r.spec.request_timeout_seconds
  pub status_calls_in : Between 1 512 r.spec.max_status_calls
  pub pages_in : Between 1 1000 r.spec.max_pages
  pub result_bytes_in : Between 1 268435456 r.spec.max_result_bytes
  pub log_bytes_in : Between 1048576 268435456 r.spec.max_log_bytes

leb-le : (a b : ℕ) → leb a b ≡ true → a ≤ b
leb-le a b h = ground arith

leb-and : (a b n : ℕ) → leb a n && leb n b ≡ true → Between a b n
leb-and a b n h = (ground arith, ground arith)

int-Between :
    (low high : ℕ) (v : Json) → int_between low high v ≡ true → Between low high (integer_of v)
int-Between low high (int n) h = leb-and low high n h
int-Between low high null h = cc h
int-Between low high (bool b) h = cc h
int-Between low high (negative n) h = cc h
int-Between low high (real s) h = cc h
int-Between low high (str s) h = cc h
int-Between low high (arr xs) h = cc h
int-Between low high (obj m) h = cc h

integer-Between :
    (low high : ℕ) (code : String) (v : Json)
    → expect (int_between low high v) code ≡ none
    → Between low high (integer_of v)
integer-Between low high code v h =
    int-Between low high v (expect-true (int_between low high v) code h)

names-length : (xs : List Json) → length (names_of xs) ≡ length xs
names-length [] = refl
names-length (x ∷ xs) = ap (λ n. suc n) (names-length xs)

fields-length :
    (v : Json) (code : String)
    → expect (are_field_names v) code ≡ none
    → length (names_of (list_of v)) ≤ 32
fields-length (arr xs) code h =
    let (e, _) = both (leb (length (items xs)) 32) _ (expect-true _ code h) in
    subst (λ n. n ≤ 32) (sym (names-length (items xs))) (leb-le (length (items xs)) 32 e)
fields-length null code h = cc h
fields-length (bool b) code h = cc h
fields-length (int n) code h = cc h
fields-length (negative n) code h = cc h
fields-length (real t) code h = cc h
fields-length (str t) code h = cc h
fields-length (obj m) code h = cc h

-- a request comes from the last branch
if-inl :
    (b : Bool) (f : Fault) (y : Request ⊎ Fault) (r : Request)
    → (if b then inr f else y) ≡ inl r
    → y ≡ inl r
if-inl true f y r h = cc h
if-inl false f y r h = h

time-some :
    (low high : ℕ) (o : Option ℕ)
    → elim o [ none ↦ false | some t ↦ leb low t && leb t high ] ≡ true
    → Between low high (elim o [ none ↦ 0 | some t ↦ t ])
time-some low high none h = cc h
time-some low high (some t) h = leb-and low high t h

module _ (py : Python) where
  time-Between :
      (low high : ℕ) (v : Json)
      → number py low high v ≡ none
      → Between (low * py.unit) (high * py.unit) (seconds_of py v)
  time-Between low high v h =
      let test = expect (is_time py (low * py.unit) (high * py.unit) v) "invalid_budget" in
      let (e, _) = first-cons test [] (first-cons (finite py v) (test ∷ []) h).1 in
      time-some (low * py.unit) (high * py.unit) (time_of py v) (expect-true _ "invalid_budget" e)

  accept-inversion : (c : Check) (q r : Request) → accept py c q ≡ inl r → (c ≡ none) × (q ≡ r)
  accept-inversion none q r h = (refl, cc h)
  accept-inversion (some e) q r h = cc h

  IsParsed : Loaded → Request → Type 0
  IsParsed l r = (doc : Json) × (l ≡ loaded doc) × (checks py doc ≡ none) × (request_of py doc ≡ r)

  loaded-IsParsed : (l : Loaded) (r : Request) → parse_loaded py l ≡ inl r → IsParsed l r
  unfolding IsParsed
  loaded-IsParsed (loaded doc) r h =
      let (c, e) = accept-inversion (checks py doc) (request_of py doc) r h in (doc, refl, c, e)
  loaded-IsParsed (refused code) r h = cc h
  loaded-IsParsed unreadable r h = cc h

  parse-IsParsed :
      (raw : List ℕ) (r : Request) → parse_spec py raw ≡ inl r → IsParsed (py.loads raw) r
  unfolding parse_spec
  parse-IsParsed raw r h = loaded-IsParsed (py.loads raw) r (
      if-inl ((length raw == 0) || ltb 65536 (length raw)) (failing "spec_too_large")
        (parse_loaded py (py.loads raw)) r h)

  checked-IsRequest : (doc : Json) → checks py doc ≡ none → IsRequest py.unit (request_of py doc)
  checked-IsRequest doc h =
      let budget_doc = item "budget" doc in
      let (_, (budget, (fields, _))) =
        first-All
          (first (header_checks py doc)
            ∷ first (budget_checks py (item "budget" doc))
            ∷ first (field_checks py doc)
            ∷ [])
          h in
      let (_, (deadline, (timeout, (status, (pages, (bytes, (log, _))))))) =
        first-All (budget_checks py (item "budget" doc)) budget in
      let (_, (page_size, (names, (rows, _)))) = first-All (field_checks py doc) fields in
      record {
        page_size_in =
            integer-Between 1 250 "invalid_page_size" (get_or (int 250) "page_size" doc) page_size;
        sample_rows_in =
            (integer-Between 0 10 "invalid_sample_rows" (get_or (int 10) "sample_rows" doc) rows).1;
        sample_fields_in =
            fields-length (get_or (arr nil) "sample_fields" doc) "invalid_sample_fields" names;
        deadline_in =
            time-Between 10 360000 (get_or (int 120) "deadline_seconds" budget_doc) deadline;
        timeout_in =
            time-Between 1 12000 (get_or (int 30) "request_timeout_seconds" budget_doc) timeout;
        status_calls_in =
            integer-Between 1 512 "invalid_budget" (get_or (int 64) "max_status_calls" budget_doc)
              status;
        pages_in =
            integer-Between 1 1000 "invalid_budget" (get_or (int 100) "max_pages" budget_doc) pages;
        result_bytes_in =
            integer-Between 1 268435456 "invalid_budget"
              (get_or (int 67108864) "max_result_bytes" budget_doc) bytes;
        log_bytes_in =
            integer-Between 1048576 268435456 "invalid_budget"
              (get_or (int 67108864) "max_log_bytes" budget_doc) log;
      }

  -- A request that `parse_spec` accepts, with the defaults in the place of missing fields, keeps to
  -- the limits of its page size, its sample and each field of its budget.
  pub parse_spec-IsRequest :
      (raw : List ℕ) (r : Request) → parse_spec py raw ≡ inl r → IsRequest py.unit r
  unfolding IsParsed
  parse_spec-IsRequest raw r h =
      let (doc, _, c, e) = parse-IsParsed raw r h in
      subst (IsRequest py.unit) e (checked-IsRequest doc c)
