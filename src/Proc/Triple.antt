-- ===== src/Proc/Triple.antt =====
-- Hoare triples of methods: from an object with `P`, an exit by a value gives `Q` of the value and
-- the object, and an exit by an exception gives `X` of the exception and the object.
use mathlib.Core.Path.{◌≡◌, refl}
use mathlib.Core.Bool.{Bool, true, false}
use mcp_velociraptor.Proc.{
  some_or, pure, modify, Exit, ok, err, Proc, final, gets, require, raise, ◌>>=◌,
}
use mcp_velociraptor.Prelude.{subst, none, some, Option, if◌then◌else◌}

module _ {S E A : Type 0} where
  abbrev pub Ends : (A → S → Type 0) → (E → S → Type 0) → Exit S E A → Type 0
  Ends Q X (ok a s) = Q a s
  Ends Q X (err e s) = X e s

  pub record Triple (P : S → Type 0) (m : Proc S E A) (Q : A → S → Type 0) (X : E → S → Type 0)
      : Type 0 where
    pub at : (s : S) → P s → Ends Q X (m s)

  -- `m` keeps `P`, whether it returns or raises
  abbrev pub Keeps : (S → Type 0) → Proc S E A → Type 0
  Keeps P m = Triple P m (λ _ s. P s) (λ _ s. P s)

  Ends-final : (P : S → Type 0) (r : Exit S E A) → Ends (λ _ s. P s) (λ _ s. P s) r → P (final r)
  Ends-final P (ok a s) h = h
  Ends-final P (err e s) h = h

  pub Keeps-final : {P : S → Type 0} {m : Proc S E A} → Keeps P m → (s : S) → P s → P (final (m s))
  Keeps-final {P} {m} k s h = Ends-final P (m s) (k.at s h)

  Ends-mono :
      {Q Q' : A → S → Type 0} {X X' : E → S → Type 0} (r : Exit S E A)
      → ((a : A) (s : S) → Q a s → Q' a s)
      → ((e : E) (s : S) → X e s → X' e s)
      → Ends Q X r
      → Ends Q' X' r
  Ends-mono (ok a s) q x h = q a s h
  Ends-mono (err e s) q x h = x e s h

  -- Consequence: a stronger start, weaker ends.
  pub Triple-mono :
      {P P' : S → Type 0} {m : Proc S E A} {Q Q' : A → S → Type 0} {X X' : E → S → Type 0}
      → Triple P m Q X
      → ((s : S) → P' s → P s)
      → ((a : A) (s : S) → Q a s → Q' a s)
      → ((e : E) (s : S) → X e s → X' e s)
      → Triple P' m Q' X'
  Triple-mono {m = m} t p q x = record { at = λ s h. Ends-mono (m s) q x (t.at s (p s h)) }

module _ {S E A B : Type 0} {R : A → S → Type 0} {Q : B → S → Type 0} {X : E → S → Type 0} where
  Ends-bind :
      (r : Exit S E A) (f : A → Proc S E B)
      → Ends R X r
      → ((a : A) → Triple (R a) (f a) Q X)
      → Ends Q X (elim r [ ok a s ↦ f a s | err e s ↦ err e s ])
  Ends-bind (ok a s) f h k = (k a).at s h
  Ends-bind (err e s) f h k = h

  pub Triple-bind :
      {P : S → Type 0} {m : Proc S E A} {f : A → Proc S E B}
      → Triple P m R X
      → ((a : A) → Triple (R a) (f a) Q X)
      → Triple P (m >>= f) Q X
  unfolding ◌>>=◌
  Triple-bind {m} {f} t k = record { at = λ s h. Ends-bind (m s) f (t.at s h) k }

module _ {S E A : Type 0} {P : S → Type 0} {X : E → S → Type 0} where
  -- a read keeps what is known, and ties the value to the object
  pub Triple-gets : (f : S → A) → Triple P (gets f) (λ a s. (a ≡ f s) × P s) X
  Triple-gets f = record { at = λ s h. (refl, h) }

module _ {S E A : Type 0} {P : S → Type 0} {Q : A → S → Type 0} {X : E → S → Type 0} where
  pub Triple-if :
      (b : Bool) {m n : Proc S E A}
      → (b ≡ true → Triple P m Q X)
      → (b ≡ false → Triple P n Q X)
      → Triple P (if b then m else n) Q X
  Triple-if true t f = t refl
  Triple-if false t f = f refl

  pub Triple-raise : (e : E) → ((s : S) → P s → X e s) → Triple P (raise e) Q X
  Triple-raise e k = record { at = k }

module _ {S E : Type 0} {P : S → Type 0} {X : E → S → Type 0} where
  -- past a guard its test holds
  pub Triple-require :
      (b : Bool) (e : E)
      → ((s : S) → P s → X e s)
      → Triple P (require b e) (λ _ s. (b ≡ true) × P s) X
  Triple-require true e k = record { at = λ s h. (refl, h) }
  Triple-require false e k = record { at = k }

module _ {S E A : Type 0} {P : S → Type 0} {X : E → S → Type 0} where
  pub Triple-some_or :
      (e : E) (o : Option A)
      → ((s : S) → P s → X e s)
      → Triple P (some_or e o) (λ a s. (o ≡ some a) × P s) X
  Triple-some_or e none k = record { at = k }
  Triple-some_or e (some a) k = record { at = λ s h. (refl, h) }

module _ {S E : Type 0} {P : S → Type 0} {Q : Unit {0} → S → Type 0} {X : E → S → Type 0} where
  pub Triple-modify : (f : S → S) → ((s : S) → P s → Q tt (f s)) → Triple P (modify f) Q X
  Triple-modify f k = record { at = k }

module _ {S E A : Type 0} {P : S → Type 0} {Q : A → S → Type 0} {X : E → S → Type 0} where
  pub Triple-pure : (a : A) → ((s : S) → P s → Q a s) → Triple P (pure a) Q X
  Triple-pure a k = record { at = k }

-- Two things that are known of one method.
module _ {S E A : Type 0} where
  Ends-and :
      (Q Q' : A → S → Type 0) (X X' : E → S → Type 0) (r : Exit S E A)
      → Ends Q X r
      → Ends Q' X' r
      → Ends (λ a s. Q a s × Q' a s) X r
  Ends-and Q Q' X X' (ok a s) h k = (h, k)
  Ends-and Q Q' X X' (err e s) h k = h

  pub Triple-and :
      {P P' : S → Type 0} {Q Q' : A → S → Type 0} {X X' : E → S → Type 0} {m : Proc S E A}
      → Triple P m Q X
      → Triple P' m Q' X'
      → Triple (λ s. P s × P' s) m (λ a s. Q a s × Q' a s) X
  Triple-and {Q = Q} {Q' = Q'} {X = X} {X' = X'} {m = m} t t' = record {
    at = λ s h. Ends-and Q Q' X X' (m s) (t.at s h.0) (t'.at s h.1);
  }

  Ends-any : (r : Exit S E A) → Ends (λ _ _. Unit {0}) (λ _ _. Unit {0}) r
  Ends-any (ok a s) = tt
  Ends-any (err e s) = tt

  -- nothing is asked for
  pub Triple-any :
      {P : S → Type 0} (m : Proc S E A) → Triple P m (λ _ _. Unit {0}) (λ _ _. Unit {0})
  Triple-any m = record { at = λ s h. Ends-any (m s) }

  -- what holds when the method has returned a value
  pub Triple_ok :
      {P : S → Type 0} {Q : A → S → Type 0} {X : E → S → Type 0} {m : Proc S E A} {s t : S} {a : A}
      → Triple P m Q X
      → P s
      → m s ≡ ok a t
      → Q a t
  Triple_ok {Q = Q} {X = X} {s = s} k h e = subst (Ends Q X) e (k.at s h)

  Ends_final :
      (Q : A → S → Type 0) (X : E → S → Type 0) (R : S → Type 0) (r : Exit S E A)
      → ((a : A) (s : S) → Q a s → R s)
      → ((e : E) (s : S) → X e s → R s)
      → Ends Q X r
      → R (final r)
  Ends_final Q X R (ok a s) q x h = q a s h
  Ends_final Q X R (err e s) q x h = x e s h

  -- what holds when the method has ended, however it ended
  pub Triple_final :
      {P : S → Type 0} {Q : A → S → Type 0} {X : E → S → Type 0} {R : S → Type 0} {m : Proc S E A}
      → Triple P m Q X
      → ((a : A) (s : S) → Q a s → R s)
      → ((e : E) (s : S) → X e s → R s)
      → (s : S) → P s
      → R (final (m s))
  Triple_final {Q = Q} {X = X} {R = R} {m = m} k q x s h = Ends_final Q X R (m s) q x (k.at s h)
