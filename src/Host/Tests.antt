-- ===== src/Host/Tests.antt =====
-- A transfer whose host forgets, and does not forget, that it was published.
use mcp_velociraptor.Json.Same.{same_json}
use mcp_velociraptor.Host.Facts.{saves-HasKept, TellsNull, HasKept}
use mcp_velociraptor.Host.Phases.{saves, phase_data, initial}
use mcp_velociraptor.Json.{Json, null, bool, int, negative, real, str, arr, obj, end, member}
use mcp_velociraptor.Prelude.{◌≡◌, ℕ, Bool, String, List, none, true, false, refl, [], ◌∷◌}

-- a text for each value that tells null from the others
abbrev kind_text : Json → List ℕ
kind_text null = 0 ∷ []
kind_text _ = 1 ∷ []

abbrev document : String → Bool → Json → Json
document phase published binding = obj (
    member "phase" (str phase) (
      member "published_ever" (bool published)
        (member "begin_attempted" (bool false) (member "binding" binding end))))

created : phase_data kind_text initial (document "CREATED" false null) ≡ none
unfolding phase_data same_json
created = refl

abbrev attempts : List Json
attempts = document "CLEANING" false (str "b") ∷ document "CLEANING" true (str "b") ∷ []

second_only :
    saves kind_text attempts (document "PUBLISHED" true (str "b"))
    ≡ document "CLEANING" true (str "b")
unfolding saves phase_data same_json
second_only = refl

kind_text-TellsNull : TellsNull kind_text
kind_text-TellsNull null h = refl
kind_text-TellsNull (bool b) h = cc h
kind_text-TellsNull (int n) h = cc h
kind_text-TellsNull (negative n) h = cc h
kind_text-TellsNull (real s) h = cc h
kind_text-TellsNull (str s) h = cc h
kind_text-TellsNull (arr xs) h = cc h
kind_text-TellsNull (obj m) h = cc h

saves-HasKept_example :
    HasKept kind_text
      (document "PUBLISHED" true (str "b"))
      (saves kind_text attempts (document "PUBLISHED" true (str "b")))
saves-HasKept_example =
    saves-HasKept kind_text kind_text-TellsNull attempts (document "PUBLISHED" true (str "b"))
