-- ===== src/Protocol/Faults.antt =====
-- The errors of velo_transfer/protocol.py, and checks that end with the first of them, which other
-- parts use too.
-- `failing` is `TransferContentError` with its code, and `crash` a TypeError.
use mcp_velociraptor.Proc.{err, ok, Proc}
use mcp_velociraptor.Json.{null, has_keys, get, bool, Json}
use mcp_velociraptor.Prelude.{true, [], ◌∷◌, some, false, none, String, Option, List, Bool}

pub data Fault : Type 0 where
  failing : String → Fault
  crash : Fault

-- What a check raises, if it raises.
abbrev pub Check : Type 0
Check = Option Fault

-- `if not test: raise Error(code)`
abbrev pub expect : Bool → String → Check
expect true code = none
expect false code = some (failing code)

-- One check after the other.
abbrev pub first : List Check → Check
first [] = none
first (none ∷ checks) = first checks
first (some e ∷ checks) = some e

-- A method goes on where a check raises nothing.
abbrev pub demand : {S : Type 0} → Check → Proc S Fault (Unit {0})
demand none s = ok tt s
demand (some e) s = err e s

-- `value[k]`, where the key is known to be there
abbrev pub item : String → Json → Json
item k value = elim (get k value) [ none ↦ null | some v ↦ v ]

-- `_object`
abbrev pub object : List String → String → Json → Check
object names code value = expect (has_keys names value) code

abbrev pub is_true : Json → Bool
is_true (bool b) = b
is_true _ = false
