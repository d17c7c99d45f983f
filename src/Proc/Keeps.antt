-- ===== src/Proc/Keeps.antt =====
-- What a method keeps, whether it returns or raises: one rule for each way to build a method.
use mathlib.Core.Bool.{Bool, true, false}
use mathlib.Core.Option.{Option, none, some}
use mcp_velociraptor.Proc.{Proc, pure, raise, gets, modify, require, some_or, ◌>>=◌}
use mcp_velociraptor.Proc.Triple.{Triple-mono, Triple, Keeps, Triple-bind, Triple-if}
use mcp_velociraptor.Prelude.{if◌then◌else◌}

module _ {S E A : Type 0} {P : S → Type 0} where
  pub Keeps-pure : (a : A) → Keeps {E = E} P (pure a)
  Keeps-pure a = record { at = λ s h. h }

  pub Keeps-raise : (e : E) → Keeps {A = A} P (raise e)
  Keeps-raise e = record { at = λ s h. h }

  pub Keeps-gets : (f : S → A) → Keeps {E = E} P (gets f)
  Keeps-gets f = record { at = λ s h. h }

  pub Keeps-some_or : (e : E) (o : Option A) → Keeps P (some_or e o)
  Keeps-some_or e none = record { at = λ s h. h }
  Keeps-some_or e (some a) = record { at = λ s h. h }

  pub Keeps-if :
      (b : Bool) (m n : Proc S E A) → Keeps P m → Keeps P n → Keeps P (if b then m else n)
  Keeps-if b m n k l = Triple-if b (λ _. k) (λ _. l)

  -- an exit by an exception may be known to less
  pub Keeps-weaken :
      {X : E → S → Type 0} {m : Proc S E A}
      → Keeps P m
      → ((e : E) (s : S) → P s → X e s)
      → Triple P m (λ _ s. P s) X
  Keeps-weaken k x = Triple-mono k (λ s h. h) (λ a s h. h) x

module _ {S E : Type 0} {P : S → Type 0} where
  pub Keeps-modify : (f : S → S) → ((s : S) → P s → P (f s)) → Keeps {E = E} P (modify f)
  Keeps-modify f k = record { at = k }

  pub Keeps-require : (b : Bool) (e : E) → Keeps P (require b e)
  Keeps-require true e = record { at = λ s h. h }
  Keeps-require false e = record { at = λ s h. h }

module _ {S E A B : Type 0} {P : S → Type 0} where
  pub Keeps-bind :
      (m : Proc S E A) (f : A → Proc S E B)
      → Keeps P m
      → ((a : A) → Keeps P (f a))
      → Keeps P (m >>= f)
  Keeps-bind m f k l = Triple-bind k l

pub ruleset keeps_rules =
    (Keeps-pure, Keeps-raise, Keeps-gets, Keeps-some_or, Keeps-if, Keeps-require, Keeps-bind)
