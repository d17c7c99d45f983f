-- ===== src/Text.antt =====
-- Text as the list of its code points, and the patterns that the program matches whole texts with.
use text.Mathlib.TextEquality.{path_by_compare}
use text.Mathlib.TextPositions.{compare_refl}
use text.Mathlib.Text.{◌==◌ as str_eq, is_eq}
use Prim.Native.String.{compare}
use Prim.Native.Nat.{Ordering}
use mcp_velociraptor.Prelude.{
  ap, true, ◌≡◌, refl, false, all, ◌==◌, ◌&&◌, ◌∷◌, ◌||◌, length, leb, [], List, Bool, ℕ,
}
use Prim.Native.Char.{code}
use Prim.Native.String.{String}

abbrev pub codes : String → List ℕ
codes String.[] = []
codes (String.◌∷◌ c s) = code c ∷ codes s

abbrev pub is_digit : ℕ → Bool
is_digit c = leb b'0' c && leb c b'9'

abbrev pub is_hex_digit : ℕ → Bool
is_hex_digit c = is_digit c || (leb b'a' c && leb c b'f')

-- `re.fullmatch(r"[0-9a-f]{n}", text)`
unfoldable pub is_hex : ℕ → String → Bool
is_hex n text = (length (codes text) == n) && all is_hex_digit (codes text)

abbrev pub is_letter_or_digit : ℕ → Bool
is_letter_or_digit c = is_digit c || (leb b'a' c && leb c b'z') || (leb b'A' c && leb c b'Z')

abbrev pub is_id_char : ℕ → Bool
is_id_char c = is_letter_or_digit c || (c == b'_') || (c == b'.') || (c == b'-')

abbrev pub is_id_codes : List ℕ → Bool
is_id_codes [] = false
is_id_codes (c ∷ cs) = is_letter_or_digit c && all is_id_char cs && leb (length cs) 127

-- `re.fullmatch(r"[A-Za-z0-9][A-Za-z0-9_.-]{0,127}", text)`
unfoldable pub is_id : String → Bool
is_id text = is_id_codes (codes text)

eq_of : (o : Ordering) → is_eq o ≡ true → o ≡ Ordering.eq
eq_of Ordering.eq h = refl
eq_of Ordering.lt h = cc
eq_of Ordering.gt h = cc

pub same_text : (s t : String) → str_eq s t ≡ true → s ≡ t
same_text s t h = path_by_compare s t (eq_of (compare s t) h)

pub same_text_refl : (s : String) → str_eq s s ≡ true
same_text_refl s = ap is_eq (compare_refl s)
