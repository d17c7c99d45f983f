-- ===== src/Proc.antt =====
-- Methods that change an object and may raise. What was written before a raise stays written, so
-- an exit by an exception carries the object too.
pub mod Triple
pub mod Keeps
pub mod Handle
pub mod Gives
use mathlib.Core.Bool.{Bool, true, false}
use mathlib.Core.Option.{Option, none, some}

-- How a method ends: with a value or with an exception, and in either case with the object.
pub data Exit (S E A : Type 0) : Type 0 where
  ok : A → S → Exit S E A
  err : E → S → Exit S E A

abbrev pub Proc : Type 0 → Type 0 → Type 0 → Type 0
Proc S E A = S → Exit S E A

module _ {S E A : Type 0} where
  abbrev pub pure : A → Proc S E A
  pure a s = ok a s

  abbrev pub raise : E → Proc S E A
  raise e s = err e s

  abbrev pub gets : (S → A) → Proc S E A
  gets f s = ok (f s) s

  -- the object when the method ends, however it ends
  abbrev pub final : Exit S E A → S
  final (ok a s) = s
  final (err e s) = s

abbrev pub modify : {S E : Type 0} → (S → S) → Proc S E (Unit {0})
modify f s = ok tt (f s)

-- the value that is there, or the exception
abbrev pub some_or : {S E A : Type 0} → E → Option A → Proc S E A
some_or e none s = err e s
some_or e (some a) s = ok a s

-- `if not test: raise e`
abbrev pub require : {S E : Type 0} → Bool → E → Proc S E (Unit {0})
require true e s = ok tt s
require false e s = err e s

module _ {S E A B : Type 0} where
  infixl 5 ◌>>=◌ ◌>>◌
  unfoldable pub ◌>>=◌ : Proc S E A → (A → Proc S E B) → Proc S E B
  ◌>>=◌ m f s = elim (m s) [ ok a s' ↦ f a s' | err e s' ↦ err e s' ]

  abbrev pub ◌>>◌ : Proc S E A → Proc S E B → Proc S E B
  m >> n = m >>= λ _. n

-- `try: m; except BaseException: self = f(self); raise`
abbrev pub on_error : {S E A : Type 0} → (S → S) → Proc S E A → Proc S E A
on_error f m s = elim (m s) [ ok a s' ↦ ok a s' | err e s' ↦ err e (f s') ]
