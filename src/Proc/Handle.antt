-- ===== src/Proc/Handle.antt =====
-- Triples of exception handlers, and of guards that read the object.
use mcp_velociraptor.Proc.Triple.{Triple, Ends}
use mcp_velociraptor.Proc.{some_or, ◌>>=◌, err, require, on_error, ok, Proc, Exit}
use mcp_velociraptor.Prelude.{some, ap, Option, false, true, ◌≡◌, Bool, refl}

module _ {S E A : Type 0} (Q : A → S → Type 0) (X Y : E → S → Type 0) (f : S → S) where
  Ends-on_error :
      (r : Exit S E A)
      → ((e : E) (s : S) → X e s → Y e (f s))
      → Ends Q X r
      → Ends Q Y (elim r [ ok a s' ↦ ok a s' | err e s' ↦ err e (f s') ])
  Ends-on_error (ok a t) k h = h
  Ends-on_error (err e t) k h = k e t h

module _ {S E A : Type 0} {P : S → Type 0} {Q : A → S → Type 0} {X Y : E → S → Type 0} where
  -- what an exception leaves is changed before it goes on
  pub Triple-on_error :
      (f : S → S) {m : Proc S E A}
      → Triple P m Q X
      → ((e : E) (s : S) → X e s → Y e (f s))
      → Triple P (on_error f m) Q Y
  Triple-on_error f {m = m} t k = record { at = λ s h. Ends-on_error Q X Y f (m s) k (t.at s h) }

module _ {S E : Type 0} (P : S → Type 0) (X : E → S → Type 0) (test : S → Bool) (e : E) where
  Ends-test :
      (b : Bool) (s : S)
      → test s ≡ b
      → P s
      → X e s
      → Ends (λ _ t. (test t ≡ true) × P t) X (require b e s)
  Ends-test true s q h k = (q, h)
  Ends-test false s q h k = k

  -- past a guard on the object its test holds of the object
  pub Triple-test :
      ((s : S) → P s → X e s)
      → Triple P (λ s. require (test s) e s) (λ _ s. (test s ≡ true) × P s) X
  Triple-test k = record { at = λ s h. Ends-test (test s) s refl h (k s h) }

module _ {S E A : Type 0} where
  -- a step of a run that is known to return
  pub bind_ok :
      {B : Type 0} (m : Proc S E A) {a : A} {s t : S} (f : A → Proc S E B)
      → m s ≡ ok a t
      → (m >>= f) s ≡ f a t
  unfolding ◌>>=◌
  bind_ok m f e = ap (λ r. elim r [ ok a' s' ↦ f a' s' | err x s' ↦ err x s' ]) e

  pub on_error_ok :
      (m : Proc S E A) {a : A} {s t : S} (f : S → S) → m s ≡ ok a t → on_error f m s ≡ ok a t
  on_error_ok m f e = ap (λ r. elim r [ ok a' s' ↦ ok a' s' | err x s' ↦ err x (f s') ]) e

pub require_ok : {S E : Type 0} {b : Bool} (e : E) (s : S) → b ≡ true → require b e s ≡ ok tt s
require_ok e s h = ap (λ t. require t e s) h

pub some_or_ok :
    {S E A : Type 0} {o : Option A} {a : A} (e : E) (s : S) → o ≡ some a → some_or e o s ≡ ok a s
some_or_ok e s h = ap (λ t. some_or e t s) h

module _ {S E A : Type 0} where
  -- a step of a run that is known to raise
  pub bind_err :
      {B : Type 0} (m : Proc S E A) {e : E} {s t : S} (f : A → Proc S E B)
      → m s ≡ err e t
      → (m >>= f) s ≡ err e t
  unfolding ◌>>=◌
  bind_err m f h = ap (λ r. elim r [ ok a' s' ↦ f a' s' | err x s' ↦ err x s' ]) h
