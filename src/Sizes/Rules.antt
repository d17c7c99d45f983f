-- ===== src/Sizes/Rules.antt =====
-- The parts of `_validate_json` of velo_transfer/storage.py that measure exactly.
use mcp_velociraptor.Protocol.Checks.{ok-value}
use mcp_velociraptor.Protocol.Faults.{Check, expect, demand}
use mcp_velociraptor.Proc.Handle.{bind_ok}
use mcp_velociraptor.Sizes.{brackets, open_children, enter, charge, Metering, Meter, Limits}
use mcp_velociraptor.Proc.{pure, Exit, ◌>>◌, Proc, ◌>>=◌, ok, err}
use mcp_velociraptor.Prelude.{
  ◌-◌, sym, leb, String, ◌∙◌, ◌≤◌, subst, ap, ◌&&◌, ◌≡◌, arith, ◌+◌, ℕ, Bool, refl, true, false,
}
use mcp_velociraptor.Json.Proper.{both}

-- a run that returned did so in both of its parts
pub then-ok :
    {S E : Type 0} (r k : Proc S E (Unit {0})) (s t : S)
    → (r >> k) s ≡ ok tt t
    → (u : S) × (r s ≡ ok tt u) × (k u ≡ ok tt t)
unfolding ◌>>=◌
then-ok {S} {E} r k s t h = go (r s) refl h
  where
    go :
        (x : Exit S E (Unit {0}))
        → r s ≡ x
        → elim x [ ok _ u ↦ k u | err e u ↦ err e u ] ≡ ok tt t
        → (u : S) × (r s ≡ ok tt u) × (k u ≡ ok tt t)
    go (ok _ u) e g = (u, e, g)
    go (err e' u) e g = cc g

abbrev pub shift : Meter → ℕ → ℕ → Meter
shift m a n = record { used = m.used + a; nodes = m.nodes + n }

pub shift-shift : (m : Meter) (a n b k : ℕ) → shift (shift m a n) b k ≡ shift m (a + b) (n + k)
shift-shift m a n b k =
    ap (λ x. record { used = x; nodes = m.nodes + n + k }) (assoc m.used a b)
    ∙ ap (λ x. record { used = m.used + (a + b); nodes = x }) (assoc m.nodes n k)
  where
    assoc : (x y z : ℕ) → x + y + z ≡ x + (y + z)
    assoc x y z = omega arith

module _ (l : Limits) where
  abbrev pub Fits : Meter → ℕ → ℕ → Type 0
  Fits m a n = (m.used + a ≤ l.max_bytes) × (m.nodes + n ≤ l.max_nodes)

  -- The run returns exactly where the test holds and what it adds fits, and then it has added it.
  pub record IsExact (r : Metering) (good : Bool) (a n : ℕ) : Type 0 where
    pub returned :
        (m t : Meter) → Fits m 0 0 → r m ≡ ok tt t → (good ≡ true) × Fits m a n × (t ≡ shift m a n)
    pub returns : (m : Meter) → good ≡ true → Fits m a n → r m ≡ ok tt (shift m a n)

  pub Fits-shift : (m : Meter) (a n b k : ℕ) → Fits (shift m a n) b k → Fits m (a + b) (n + k)
  Fits-shift m a n b k (h, g) = (omega arith, omega arith)

  pub Fits-more :
      (m : Meter) (a n b k : ℕ) → Fits m (a + b) (n + k) → Fits m a n × Fits (shift m a n) b k
  Fits-more m a n b k (h, g) = ((omega arith, omega arith), (omega arith, omega arith))

  pub Fits-zero : (m : Meter) (a n : ℕ) → Fits m a n → Fits (shift m a n) 0 0
  Fits-zero m a n (h, g) = (omega arith, omega arith)

  pub both-true : (x y : Bool) → x ≡ true → y ≡ true → x && y ≡ true
  both-true x y h k = ground arith

  pub then-IsExact :
      {r k : Metering} {g g' : Bool} {a n a' n' : ℕ}
      → IsExact r g a n
      → IsExact k g' a' n'
      → IsExact (r >> k) (g && g') (a + a') (n + n')
  then-IsExact {r} {k} {g} {g'} {a} {n} {a'} {n'} x y = record {
    returned = λ m t f h.
        let (u, e, e') = then-ok r k m t h in
        let (good, fits, same) = x.returned m u f e in
        let (good', fits', same') =
          y.returned (shift m a n) t (Fits-zero m a n fits) (subst (λ v. k v ≡ ok tt t) same e') in
        (both-true g g' good good', Fits-shift m a n a' n' fits', same' ∙ shift-shift m a n a' n');
    returns = λ m good f.
        let (h, h') = both g g' good in
        let (f₁, f₂) = Fits-more m a n a' n' f in
        bind_ok r (λ _. k) (x.returns m h f₁)
        ∙ (y.returns (shift m a n) h' f₂ ∙ ap (ok tt) (shift-shift m a n a' n'));
  }

  pub zero_plus : (k : ℕ) → 0 + k ≡ k
  zero_plus k = omega arith

  pub zero_zero : (k : ℕ) → 0 + (0 + k) ≡ k
  zero_zero k = omega arith

  pub same-IsExact :
      {r : Metering} {g g' : Bool} {a n a' n' : ℕ}
      → IsExact r g a n
      → g ≡ g'
      → a ≡ a'
      → n ≡ n'
      → IsExact r g' a' n'
  same-IsExact {r} {g} {g'} {a} {n} {a'} {n'} x e f h =
      subst (λ v. IsExact r g' a' v) h
        (subst (λ v. IsExact r g' v n) f (subst (λ v. IsExact r v a n) e x))

  -- a test, after which the run goes on
  pub expect-ok :
      (b : Bool) (code : String) (m t : Meter)
      → demand (expect b code) m ≡ ok tt t
      → (b ≡ true) × (t ≡ m)
  expect-ok true code m t h = (refl, sym (ok-value h).1)
  expect-ok false code m t h = cc h

  pub plus_zero : (n : ℕ) → n ≡ n + 0
  plus_zero n = omega arith

  pub leb-le : (a b : ℕ) → leb a b ≡ true → a ≤ b
  leb-le a b h = ground arith

  pub le-leb : (a b : ℕ) → a ≤ b → leb a b ≡ true
  le-leb a b h = ground arith

  pub charge-IsExact : (a : ℕ) → IsExact (charge l a) true a 0
  unfolding charge ◌>>=◌
  charge-IsExact a = record {
    returned = λ m t f h.
        let (e, same) = expect-ok (leb (m.used + a) l.max_bytes) "state_budget_exceeded" _ t h in
        (
          refl,
          (leb-le (m.used + a) l.max_bytes e, f.1),
          same ∙ ap (λ x. record { used = m.used + a; nodes = x }) (plus_zero m.nodes),
        );
    returns = λ m good f.
        rw (le-leb (m.used + a) l.max_bytes f.0)
          (ap (λ x. ok tt (record { used = m.used + a; nodes = x })) (plus_zero m.nodes));
  }

  pub enter-IsExact : (depth : ℕ) → IsExact (enter l depth) (leb depth l.max_depth) 0 1
  unfolding enter ◌>>=◌
  enter-IsExact depth = record {
    returned = λ m t f h.
        let (e, same) =
          expect-ok (leb (m.nodes + 1) l.max_nodes && leb depth l.max_depth) "state_budget_exceeded"
            _ t h in
        let (x, y) = both (leb (m.nodes + 1) l.max_nodes) (leb depth l.max_depth) e in
        (
          y,
          (f.0, leb-le (m.nodes + 1) l.max_nodes x),
          same ∙ ap (λ x. record { used = x; nodes = m.nodes + 1 }) (plus_zero m.used),
        );
    returns = λ m good f.
        rw (le-leb (m.nodes + 1) l.max_nodes f.1, good)
          (ap (λ x. ok tt (record { used = x; nodes = m.nodes + 1 })) (plus_zero m.used));
  }

  pub pure-IsExact : IsExact (pure tt) true 0 0
  pure-IsExact = record {
    returned = λ m t f h. (refl, f, sym (ok-value h).1 ∙ shift-zero m);
    returns = λ m good f. ap (ok tt) (shift-zero m);
  }
    where
      shift-zero : (m : Meter) → m ≡ shift m 0 0
      shift-zero m =
          ap (λ x. record { used = x; nodes = m.nodes }) (plus_zero m.used)
          ∙ ap (λ x. record { used = m.used + 0; nodes = x }) (plus_zero m.nodes)

  -- a test on its own, before a run
  pub test-IsExact :
      (b : Bool) (code : String) {r : Metering} {g : Bool} {a n : ℕ}
      → IsExact r g a n
      → IsExact (demand (expect b code) >> r) (b && g) a n
  unfolding ◌>>=◌
  test-IsExact true code x = record { returned = x.returned; returns = x.returns }
  test-IsExact false code x = record { returned = λ m t f h. cc h; returns = λ m good f. cc good }

  -- a list or dict whose children are at least as many nodes
  pub open-IsExact :
      (c : ℕ) {r : Metering} {g : Bool} {a n : ℕ}
      → IsExact r g a n
      → c ≤ n
      → IsExact (open_children l c >> r) g (brackets c + a) n
  unfolding open_children ◌>>=◌
  open-IsExact c {r} {g} {a} {n} x le = record {
    returned = λ m t f h.
        let (u, e, k) = then-ok (open_children l c) r m t h in
        let (w, e₁, e₂) = then-ok (demand (room m)) (charge l (brackets c)) m u e in
        let (_, same) = expect-ok (leb c (l.max_nodes - m.nodes)) "state_budget_exceeded" m w e₁ in
        whole.returned m t f (
          bind_ok (charge l (brackets c)) (λ _. r)
            (subst (λ v. charge l (brackets c) v ≡ ok tt u) same e₂)
          ∙ k);
    returns = λ m good f.
        ap (λ z. elim z [ ok _ u ↦ r u | err e u ↦ err e u ])
          (opens m (le-leb c (l.max_nodes - m.nodes) (enough m.nodes n l.max_nodes le f.1)))
        ∙ whole.returns m good f;
  }
    where
      room : Meter → Check
      room m = expect (leb c (l.max_nodes - m.nodes)) "state_budget_exceeded"

      opens :
          (m : Meter)
          → leb c (l.max_nodes - m.nodes) ≡ true
          → open_children l c m ≡ charge l (brackets c) m
      opens m e = ap (λ b. (demand (expect b "state_budget_exceeded") >> charge l (brackets c)) m) e

      enough : (x y z : ℕ) → c ≤ y → x + y ≤ z → c ≤ z - x
      enough x y z h k = omega arith

      whole : IsExact (charge l (brackets c) >> r) g (brackets c + a) n
      whole = same-IsExact (then-IsExact (charge-IsExact (brackets c)) x) refl refl (zero_plus n)
