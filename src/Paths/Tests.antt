-- ===== src/Paths/Tests.antt =====
-- Two paths beside each other.
use mcp_velociraptor.Paths.Apart.{check_collisions_iff, AllApart, AllRelative}
use mcp_velociraptor.Text.{codes}
use mcp_velociraptor.Paths.{parents_of, is_relative, above, distinct, check_collisions, Unicode}
use mcp_velociraptor.Prelude.{map, ◌↔◌, none, ◌≡◌, ℕ, List, refl, true, [], ◌∷◌}

abbrev pub plain : Unicode
plain = record { is_nfc = λ _. true; casefold = λ cs. cs }

abbrev two_names : List (List ℕ)
two_names = codes "a/b" ∷ codes "c" ∷ []

check_collisions_iff_example :
    (check_collisions plain two_names [] ≡ none)
    ↔ (AllRelative plain two_names × AllApart plain (map plain.casefold two_names))
check_collisions_iff_example = check_collisions_iff plain two_names

two_names-pass : check_collisions plain two_names [] ≡ none
unfolding check_collisions distinct above is_relative parents_of
two_names-pass = refl
