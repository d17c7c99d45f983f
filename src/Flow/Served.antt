-- ===== src/Flow/Served.antt =====
-- `_call` and the checks on a page of velo_flow/coordinator.py, about the answer that they take.
use mcp_velociraptor.Proc.Gives.{
  Gives, Gives-any, Gives-mono, Gives-pure, Gives-raise, Gives-some_or, Gives-if, Gives-require,
  Gives-bind,
}
use mcp_velociraptor.Proc.Triple.{Ends}
use mcp_velociraptor.Json.{
  Json, null, str, arr, int, obj, bool, negative, real, Items, items, get, is_text, truthy,
}
use mcp_velociraptor.Flow.Model.{
  World, Spec, Run, Tool, Answer, Arrival, arrived, timed_out, interrupted, broken,
}
use mcp_velociraptor.Flow.Wait.{field}
use mcp_velociraptor.Flow.Calls.{ask, settle, bounded, call, checked, checked_payload}
use mcp_velociraptor.Flow.Pages.{page_of, rows_of, next_of, expected_echo}
use mcp_velociraptor.Prelude.{
  ℕ, ◌+◌, String, Bool, true, false, Option, none, some, List, [], ◌∷◌, ◌≡◌, ◌==◌, ◌∙◌, ap, refl,
}

-- the tool answered the question with this payload
pub record IsServed (w : World) (tool : Tool) (args payload : Json) : Type 0 where
  pub n : ℕ
  pub timeout : ℕ
  pub answer : Answer
  pub asked : w.call_tool n timeout tool args ≡ arrived answer
  pub success : answer.is_error ≡ false
  pub payload_of : answer.structured_content ≡ some payload

abbrev Arrives : {A : Type 0} → (ℕ → ℕ → Arrival A) → A → Type 0
Arrives starter a = (n : ℕ) × (t : ℕ) × (starter n t ≡ arrived a)

ask-Gives :
    {A : Type 0} (starter : ℕ → ℕ → Arrival A) (t : ℕ) (b : Bool)
    → Gives (ask starter t b) (Arrives starter)
ask-Gives {A} starter t b = record { at = λ s _. of s (starter s.asked t) refl }
  where
    of :
        (s : Run) (x : Arrival A)
        → starter s.asked t ≡ x
        → Ends
            (λ a _. Arrives starter a)
            (λ _ _. Unit {0})
            (settle b x (record s { asked = s.asked + 1 }))
    of s (arrived a) e = (s.asked, t, e)
    of s timed_out e = tt
    of s interrupted e = tt
    of s broken e = tt

bounded-Gives :
    {A : Type 0} (w : World) (spec : Spec) (starter : ℕ → ℕ → Arrival A)
    → Gives (bounded w spec starter) (Arrives starter)
unfolding bounded
bounded-Gives w spec starter =
    Gives-bind (Gives-any _)
      λ before _. Gives-if (before == 0) (λ _. Gives-raise _) (λ _. ask-Gives starter _ _)

checked_payload-Gives :
    (w : World) (t : Tool) (payload : Json) → Gives (checked_payload w t payload) (λ p. payload ≡ p)
unfolding checked_payload
checked_payload-Gives w t payload = Gives-bind (Gives-any _) λ _ _. Gives-bind (Gives-any _) λ _ _.
    Gives-bind (Gives-any _)
      λ _ _. Gives-bind (Gives-any _) λ _ _. Gives-bind (Gives-any _) λ _ _. Gives-pure payload refl

checked-Gives :
    (w : World) (r : Answer) (t : Tool)
    → Gives (checked w r t) (λ p. (r.is_error ≡ false) × (r.structured_content ≡ some p))
unfolding checked
checked-Gives w r t =
    Gives-if r.is_error (λ _. Gives-raise _)
      λ fine.
        Gives-bind (Gives-some_or _ r.structured_content)
          λ payload e. Gives-mono (checked_payload-Gives w t payload) λ p q. (fine, e ∙ ap some q)

pub call-Gives :
    (w : World) (spec : Spec) (t : Tool) (args : Json)
    → Gives (call w spec t args) (IsServed w t args)
unfolding call
call-Gives w spec t args = Gives-bind (Gives-any _) λ _ _. Gives-bind (Gives-any _) λ _ _.
    Gives-bind (Gives-any _) λ _ _. Gives-bind (Gives-any _) λ _ _. Gives-bind (Gives-any _) λ _ _.
      Gives-bind (bounded-Gives w spec (λ n timeout. w.call_tool n timeout t args)) λ answer a.
        Gives-bind (Gives-any _) λ _ _. Gives-mono (checked-Gives w answer t) λ p c. record {
          n = a.0;
          timeout = a.1;
          answer = answer;
          asked = a.2;
          success = c.0;
          payload_of = c.1;
        }

-- The payload has these rows, for the page at the cursor, and this next cursor, which is null at the
-- end.
pub record IsPage (cursor : Option String) (payload : Json) (rows : List Json)
    (next : Option String) : Type 0 where
  pub listed : (xs : Items) × (get "data" payload ≡ some (arr xs)) × (items xs ≡ rows)
  pub pagination : Json
  pub paged : get "pagination" payload ≡ some pagination
  pub echo : Json
  pub echoed : (get "cursor" pagination ≡ some echo) × (is_text (expected_echo cursor) echo ≡ true)
  pub next_is : get "next_cursor" pagination ≡ some (elim next [ none ↦ null | some t ↦ str t ])

rows_of-Gives :
    (j : Json) → Gives (rows_of j) (λ rows. (xs : Items) × (j ≡ arr xs) × (items xs ≡ rows))
unfolding rows_of
rows_of-Gives (arr xs) = record { at = λ s _. (xs, refl, refl) }
rows_of-Gives null = record { at = λ s _. tt }
rows_of-Gives (bool b) = record { at = λ s _. tt }
rows_of-Gives (int n) = record { at = λ s _. tt }
rows_of-Gives (negative n) = record { at = λ s _. tt }
rows_of-Gives (real t) = record { at = λ s _. tt }
rows_of-Gives (str t) = record { at = λ s _. tt }
rows_of-Gives (obj m) = record { at = λ s _. tt }

abbrev IsNext : Json → Option String → Type 0
IsNext j next = j ≡ elim next [ none ↦ null | some t ↦ str t ]

next_of-Gives : (b : Bool) (j : Json) (rows : List Json) → Gives (next_of b j rows) (IsNext j)
unfolding next_of
next_of-Gives true (str t) (r ∷ rows) = Gives-bind (Gives-any _) λ _ _. Gives-pure (some t) refl
next_of-Gives true (str t) [] = Gives-raise _
next_of-Gives true null rows = Gives-raise _
next_of-Gives true (bool b) rows = Gives-raise _
next_of-Gives true (int n) rows = Gives-raise _
next_of-Gives true (negative n) rows = Gives-raise _
next_of-Gives true (real t) rows = Gives-raise _
next_of-Gives true (arr xs) rows = Gives-raise _
next_of-Gives true (obj m) rows = Gives-raise _
next_of-Gives false null rows = Gives-pure none refl
next_of-Gives false (bool b) rows = Gives-raise _
next_of-Gives false (int n) rows = Gives-raise _
next_of-Gives false (negative n) rows = Gives-raise _
next_of-Gives false (real t) rows = Gives-raise _
next_of-Gives false (str t) rows = Gives-raise _
next_of-Gives false (arr xs) rows = Gives-raise _
next_of-Gives false (obj m) rows = Gives-raise _

field-Gives : (k : String) (payload : Json) → Gives (field k payload) (λ v. get k payload ≡ some v)
unfolding field
field-Gives k payload = Gives-some_or _ (get k payload)

pub page_of-Gives :
    (spec : Spec) (cursor : Option String) (payload : Json)
    → Gives (page_of spec cursor payload) (λ page. IsPage cursor payload page.0 page.1)
unfolding page_of
page_of-Gives spec cursor payload = Gives-bind (field-Gives "pagination" payload) λ pagination p.
    Gives-bind (field-Gives "data" payload) λ data' d.
      Gives-bind (field-Gives "cursor" pagination) λ echo c.
        Gives-bind (Gives-require (is_text (expected_echo cursor) echo) _) λ _ same.
          Gives-bind (Gives-any _) λ _ _. Gives-bind (rows_of-Gives data') λ rows r.
            Gives-bind (Gives-any _) λ _ _. Gives-bind (Gives-any _) λ _ _.
              Gives-bind (Gives-any _) λ _ _. Gives-bind (Gives-any _) λ truncated _.
                Gives-bind (field-Gives "next_cursor" pagination) λ nxt n.
                  Gives-bind (next_of-Gives (truthy truncated) nxt rows) λ next e.
                    Gives-pure (rows, next)
                      (record {
                        listed = (r.0, d ∙ ap some r.1, r.2);
                        pagination = pagination;
                        paged = p;
                        echo = echo;
                        echoed = (c, same);
                        next_is = n ∙ ap some e;
                      })
