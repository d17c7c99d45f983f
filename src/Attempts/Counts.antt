-- ===== src/Attempts/Counts.antt =====
-- The counts of the ledger in velociraptor_observation_attempts.py.
use mcp_velociraptor.Json.Proper.{both}
use mcp_velociraptor.Attempts.Begin.{
  is_seen, add_attempt, is_allowed, add_active, new_attempt, overhead, archive_bytes, reserve,
}
use mcp_velociraptor.Json.{Json}
use mcp_velociraptor.Attempts.{
  Reason, record_published, set_phase, has_room, retire, is_active_at, change, Ledger, Phase,
  Attempt, Approved, duplicate, active_limit, seen_limit, byte_limit, allowed,
}
use mcp_velociraptor.Prelude.{
  length-append, sym, leb, ◌∙◌, ltb, ◌⊎◌, ap, String, ◌<◌, ◌-◌, ◌≤◌, ◌≡◌, length, ◌++◌, ◌+◌, ℕ,
  List, Bool, refl, if◌then◌else◌, true, false, [], ◌∷◌, zero, suc, arith, inr,
}

abbrev pub one_if : Bool → ℕ
one_if true = 1
one_if false = 0

abbrev pub active_count : List Attempt → ℕ
active_count [] = 0
active_count (a ∷ xs) = one_if a.active + active_count xs

abbrev pub set_at : Phase → Attempt → Attempt
set_at p a = record a { phase = p }

abbrev pub turn_off : Attempt → Attempt
turn_off a = record a { active = false }

pub length-change :
    {A : Type 0} (n : ℕ) (f : A → A) (xs : List A) → length (change n f xs) ≡ length xs
length-change n f [] = refl
length-change zero f (x ∷ xs) = refl
length-change (suc n) f (x ∷ xs) = ap suc (length-change n f xs)

active_count-set_at :
    (n : ℕ) (p : Phase) (xs : List Attempt)
    → active_count (change n (set_at p) xs) ≡ active_count xs
active_count-set_at n p [] = refl
active_count-set_at zero p (a ∷ xs) = refl
active_count-set_at (suc n) p (a ∷ xs) = ap (λ k. one_if a.active + k) (active_count-set_at n p xs)

active_count-turn_off :
    (n : ℕ) (xs : List Attempt)
    → is_active_at n xs ≡ true
    → active_count xs ≡ active_count (change n turn_off xs) + 1
active_count-turn_off n [] h = cc h
active_count-turn_off zero (a ∷ xs) h = rw h (omega arith)
active_count-turn_off (suc n) (a ∷ xs) h = omega (arith, active_count-turn_off n xs h)

active_count-append :
    (xs : List Attempt) (a : Attempt)
    → active_count (xs ++ a ∷ []) ≡ active_count xs + one_if a.active
active_count-append [] a = omega arith
active_count-append (b ∷ xs) a = omega (arith, active_count-append xs a)

module _ (d : Approved) where
  pub record Counted (xs : List Attempt) (count active : ℕ) : Type 0 where
    pub counted : active ≡ active_count xs
    pub placed : count ≡ length xs
    pub within : active ≤ d.max_active
    pub few : count ≤ d.max_attempts

  abbrev pub Catalogued : ℕ → ℕ → Type 0
  Catalogued count bytes = (count ≤ d.max_catalog_records) × (bytes ≤ d.catalog_total_bytes)

  abbrev pub Reserved : ℕ → Type 0
  Reserved reserve = (reserve ≡ 0) ⊎ (reserve + overhead d ≤ d.max_total_archive_bytes)

  -- The ledger's counts are those of its attempts, and within the budgets.
  abbrev pub IsLedger : Ledger → Type 0
  IsLedger s =
      Counted s.attempts s.attempt_count s.active
      × Catalogued s.catalog_count s.catalog_bytes
      × Reserved s.request_reserve

  pub set_phase-IsLedger :
      (n : ℕ) (p : Phase) (s : Ledger) → IsLedger s → IsLedger (set_phase n p s)
  set_phase-IsLedger n p s (c, k, r) = (
    record {
      counted = c.counted ∙ sym (active_count-set_at n p s.attempts);
      placed = c.placed ∙ sym (length-change n (set_at p) s.attempts);
      within = c.within;
      few = c.few;
    },
    k,
    r,
  )

  pub retire-IsLedger : (n : ℕ) (s : Ledger) → IsLedger s → IsLedger (retire n s)
  unfolding retire
  retire-IsLedger n s (c, k, r) = of (is_active_at n s.attempts) refl
    where
      less : (x y z m : ℕ) → x ≡ y → y ≡ z + 1 → x ≤ m → (x - 1 ≡ z) × (x - 1 ≤ m)
      less x y z m e f h = (omega arith, omega arith)

      of :
          (b : Bool)
          → is_active_at n s.attempts ≡ b
          → IsLedger (
              if b
              then record s { attempts = change n turn_off s.attempts; active = s.active - 1 }
              else s)
      of false h = (c, k, r)
      of true h =
          let (e, w) =
            less s.active (active_count s.attempts) (active_count (change n turn_off s.attempts))
              d.max_active c.counted (active_count-turn_off n s.attempts h) c.within in
          (
            record {
              counted = e;
              placed = c.placed ∙ sym (length-change n turn_off s.attempts);
              within = w;
              few = c.few;
            },
            k,
            r,
          )

  pub published-IsLedger :
      (raw : List ℕ) (s : Ledger)
      → has_room d raw s ≡ true
      → IsLedger s
      → IsLedger (record_published d raw s)
  published-IsLedger raw s h (c, k, r) = let (p, q) = both _ _ h in (c, (below p, fits q), r)
    where
      below :
          ltb s.catalog_count d.max_catalog_records ≡ true
          → s.catalog_count + 1 ≤ d.max_catalog_records
      below p = ground arith

      fits :
          leb (s.catalog_bytes + length raw) d.catalog_total_bytes ≡ true
          → s.catalog_bytes + length raw ≤ d.catalog_total_bytes
      fits q = ground arith

  -- an attempt is active only where there is room for it
  pub record IsAdmitted (a : Attempt) (s : Ledger) : Type 0 where
    pub same : a.active ≡ a.is_new
    pub more : s.attempt_count < d.max_attempts
    pub active : a.is_new ≡ true → s.active < d.max_active
    pub bytes : a.is_new ≡ true → archive_bytes d s.request_reserve ≤ d.max_total_archive_bytes

  pub reserve-IsLedger :
      (raw : List ℕ) (a : Attempt) (s : Ledger)
      → IsAdmitted a s
      → IsLedger s
      → IsLedger (reserve d raw a s)
  unfolding reserve
  reserve-IsLedger raw a s h (c, k, r) = of (is_seen raw s.seen) a.is_new h.same h.active h.bytes
    where
      one_more : (m n k : ℕ) → m ≡ n → n < k → (m + 1 ≤ k)
      one_more m n k e w = omega arith

      plus_one : (m n : ℕ) → m ≡ n → m + 1 ≡ n + 1
      plus_one m n e = omega arith

      plus_zero : (m n : ℕ) → m ≡ n → m ≡ n + 0
      plus_zero m n e = omega arith

      count :
          (b : Bool)
          → a.active ≡ b
          → active_count (s.attempts ++ a ∷ []) ≡ active_count s.attempts + one_if b
      count b e = active_count-append s.attempts a ∙ ap (λ v. active_count s.attempts + one_if v) e

      placed : s.attempt_count + 1 ≡ length (s.attempts ++ a ∷ [])
      placed =
          plus_one s.attempt_count (length s.attempts) c.placed
          ∙ sym (length-append s.attempts (a ∷ []))

      counted :
          (b : Bool)
          → a.active ≡ b
          → (b ≡ true → s.active < d.max_active)
          → Counted
              (s.attempts ++ a ∷ [])
              (s.attempt_count + 1)
              (if b then s.active + 1 else s.active)
      counted true e w = record {
        counted = plus_one s.active (active_count s.attempts) c.counted ∙ sym (count true e);
        placed = placed;
        within = one_more s.active s.active d.max_active refl (w refl);
        few = one_more s.attempt_count s.attempt_count d.max_attempts refl h.more;
      }
      counted false e w = record {
        counted = plus_zero s.active (active_count s.attempts) c.counted ∙ sym (count false e);
        placed = placed;
        within = c.within;
        few = one_more s.attempt_count s.attempt_count d.max_attempts refl h.more;
      }

      of :
          (x b : Bool)
          → a.active ≡ b
          → (b ≡ true → s.active < d.max_active)
          → (b ≡ true → archive_bytes d s.request_reserve ≤ d.max_total_archive_bytes)
          → IsLedger (
              add_active d b (
                if x then add_attempt d a s else record (add_attempt d a s) {
                  seen = raw ∷ s.seen;
                  seen_bytes = s.seen_bytes + length raw;
                }))
      of true true e w m = (counted true e w, k, inr (m refl))
      of true false e w m = (counted false e w, k, r)
      of false true e w m = (counted true e w, k, inr (m refl))
      of false false e w m = (counted false e w, k, r)

  -- what the reason says of a new attempt
  pub new_attempt-IsAdmitted :
      (key : Json) (tool sha : String) (raw : List ℕ) (s : Ledger)
      → ltb s.attempt_count d.max_attempts ≡ true
      → IsAdmitted (new_attempt d key tool sha raw s) s
  new_attempt-IsAdmitted key tool sha raw s h =
      let (a, b) =
        of (is_seen raw s.seen) (leb d.max_active s.active)
          (ltb d.max_seen_key_bytes (s.seen_bytes + length raw))
          (ltb d.max_total_archive_bytes (archive_bytes d s.request_reserve)) in
      record { same = refl; more = below h; active = λ w. under (a w); bytes = λ w. upto (b w) }
    where
      below : ltb s.attempt_count d.max_attempts ≡ true → s.attempt_count < d.max_attempts
      below h = ground arith

      under : leb d.max_active s.active ≡ false → s.active < d.max_active
      under h = ground arith

      upto :
          ltb d.max_total_archive_bytes (archive_bytes d s.request_reserve) ≡ false
          → archive_bytes d s.request_reserve ≤ d.max_total_archive_bytes
      upto h = at_most (archive_bytes d s.request_reserve) d.max_total_archive_bytes h
        where
          at_most : (m n : ℕ) → ltb n m ≡ false → m ≤ n
          at_most m n h = ground arith

      reason : Bool → Bool → Bool → Bool → Reason
      reason w x y z =
          if w
          then duplicate
          else if x
          then active_limit
          else if y
          then seen_limit
          else if z
          then byte_limit
          else allowed

      of :
          (w x y z : Bool)
          → (is_allowed (reason w x y z) ≡ true → x ≡ false)
            × (is_allowed (reason w x y z) ≡ true → z ≡ false)
      of true x y z = (λ h. cc h, λ h. cc h)
      of false true y z = (λ h. cc h, λ h. cc h)
      of false false true z = (λ _. refl, λ h. cc h)
      of false false false true = (λ _. refl, λ h. cc h)
      of false false false false = (λ _. refl, λ _. refl)
