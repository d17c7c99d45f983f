-- ===== src/Proc/Gives.antt =====
-- What holds of the value that a method returns, whatever the object is.
use mcp_velociraptor.Proc.{ok, err, Proc, Exit, pure, raise, require, some_or, ◌>>=◌}
use mcp_velociraptor.Proc.Triple.{Triple, Keeps, Ends, Triple-mono}
use mcp_velociraptor.Prelude.{Bool, true, false, Option, none, some, ◌≡◌, refl, if◌then◌else◌}

module _ {S E A : Type 0} where
  abbrev pub Gives : Proc S E A → (A → Type 0) → Type 0
  Gives m B = Triple (λ _. Unit {0}) m (λ a _. B a) (λ _ _. Unit {0})

  pub Gives-any : (m : Proc S E A) → Gives m (λ _. Unit {0})
  Gives-any m = record { at = λ s _. any (m s) }
    where
      any : (r : Exit S E A) → Ends (λ _ _. Unit {0}) (λ _ _. Unit {0}) r
      any (ok a s) = tt
      any (err e s) = tt

  pub Gives-pure : {B : A → Type 0} (a : A) → B a → Gives (pure a) B
  Gives-pure a b = record { at = λ s _. b }

  pub Gives-mono :
      {B D : A → Type 0} {m : Proc S E A} → Gives m B → ((a : A) → B a → D a) → Gives m D
  Gives-mono t k = Triple-mono t (λ s h. h) (λ a s b. k a b) (λ e s h. h)

  pub Gives-raise : {B : A → Type 0} (e : E) → Gives (raise e) B
  Gives-raise e = record { at = λ s _. tt }

  pub Gives-some_or : (e : E) (o : Option A) → Gives (some_or e o) (λ a. o ≡ some a)
  Gives-some_or e none = record { at = λ s _. tt }
  Gives-some_or e (some a) = record { at = λ s _. refl }

  pub Gives-if :
      {B : A → Type 0} (b : Bool) {m n : Proc S E A}
      → (b ≡ true → Gives m B)
      → (b ≡ false → Gives n B)
      → Gives (if b then m else n) B
  Gives-if true t f = t refl
  Gives-if false t f = f refl

pub Gives-require :
    {S E : Type 0} (b : Bool) (e : E) → Gives {S = S} {E = E} (require b e) (λ _. b ≡ true)
Gives-require true e = record { at = λ s _. refl }
Gives-require false e = record { at = λ s _. tt }

module _ {S E A C : Type 0} {B : A → Type 0} where
  pub Gives-bind :
      {D : C → Type 0} {m : Proc S E A} {f : A → Proc S E C}
      → Gives m B
      → ((a : A) → B a → Gives (f a) D)
      → Gives (m >>= f) D
  unfolding ◌>>=◌
  Gives-bind {D} {m} {f} t k = record { at = λ s _. of (m s) (t.at s tt) }
    where
      of :
          (r : Exit S E A)
          → Ends (λ a _. B a) (λ _ _. Unit {0}) r
          → Ends (λ c _. D c) (λ _ _. Unit {0}) (elim r [ ok a s ↦ f a s | err e s ↦ err e s ])
      of (ok a s) b = (k a b).at s tt
      of (err e s) b = tt

  -- the object keeps `P`, and what the value gives is known after
  pub Triple-given :
      {P : S → Type 0} {Q : C → S → Type 0} {m : Proc S E A} {f : A → Proc S E C}
      → Keeps P m
      → Gives m B
      → ((a : A) → B a → Triple P (f a) Q (λ _ _. Unit {0}))
      → Triple P (m >>= f) Q (λ _ _. Unit {0})
  unfolding ◌>>=◌
  Triple-given {P} {Q} {m} {f} t g k = record { at = λ s h. of (m s) (t.at s h) (g.at s tt) }
    where
      of :
          (r : Exit S E A)
          → Ends (λ _ s. P s) (λ _ s. P s) r
          → Ends (λ a _. B a) (λ _ _. Unit {0}) r
          → Ends Q (λ _ _. Unit {0}) (elim r [ ok a s ↦ f a s | err e s ↦ err e s ])
      of (ok a s) h b = (k a b).at s h
      of (err e s) h b = tt
