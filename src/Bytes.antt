-- ===== src/Bytes.antt =====
-- The bytes in a list of records or lines.
use mcp_velociraptor.Prelude.{arith, [], ◌+◌, ◌≡◌, length, ◌∷◌, ◌++◌, ℕ, List}

abbrev pub total : List (List ℕ) → ℕ
total [] = 0
total (line ∷ lines) = length line + total lines

pub total-append : (xs ys : List (List ℕ)) → total (xs ++ ys) ≡ total xs + total ys
total-append [] ys = omega arith
total-append (x ∷ xs) ys = omega (arith, total-append xs ys)
