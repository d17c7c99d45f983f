-- ===== src/Paths.antt =====
-- `check_relative` and `_check_collisions` of velo_transfer/manifest.py. A text is the list of its
-- code points, where a path is taken apart.
pub mod Collisions
pub mod Apart
pub mod Tests
use mcp_velociraptor.Wire.Frame.{same_bytes}
use mcp_velociraptor.Text.{codes, is_digit}
use mcp_velociraptor.Protocol.Faults.{Check, expect, first, failing}
use mcp_velociraptor.Json.{Json, str}
use mcp_velociraptor.Prelude.{
  ℕ, String, List, [], ◌∷◌, ◌++◌, Bool, true, false, none, some, not, ◌&&◌, ◌||◌, ◌==◌, ◌+◌, suc,
  zero, any, all, map, leb, ltb, if◌then◌else◌,
}

-- `unicodedata.normalize("NFC", part) == part`, and `str.casefold`
pub record Unicode : Type 0 where
  pub is_nfc : List ℕ → Bool
  pub casefold : List ℕ → List ℕ

-- `text.split(sep)`
abbrev pub cons_head : ℕ → List (List ℕ) → List (List ℕ)
cons_head c [] = (c ∷ []) ∷ []
cons_head c (p ∷ ps) = (c ∷ p) ∷ ps

abbrev pub split : ℕ → List ℕ → List (List ℕ)
split sep [] = [] ∷ []
split sep (c ∷ cs) = let rest = split sep cs in if c == sep then [] ∷ rest else cons_head c rest

-- `sep.join(parts)`
abbrev pub join : ℕ → List (List ℕ) → List ℕ
join sep [] = []
join sep (p ∷ []) = p
join sep (p ∷ q ∷ ps) = p ++ sep ∷ join sep (q ∷ ps)

-- `parts[:i] for i in range(1, len(parts))`
abbrev pub heads : List (List ℕ) → List (List (List ℕ))
heads [] = []
heads (p ∷ []) = []
heads (p ∷ q ∷ ps) = (p ∷ []) ∷ map (λ h. p ∷ h) (heads (q ∷ ps))

-- how a pattern with `re.I` reads a code point
abbrev ignore_case : ℕ → ℕ
ignore_case c =
    if leb b'A' c && leb c b'Z'
    then c + 32
    else if (c == 304) || (c == 305)
    then b'i'
    else if c == 383
    then b's'
    else if c == 8490
    then b'k'
    else c

abbrev pub starts_with : List ℕ → List ℕ → Bool
starts_with [] cs = true
starts_with (p ∷ ps) [] = false
starts_with (p ∷ ps) (c ∷ cs) = (p == c) && starts_with ps cs

abbrev ends_here : List ℕ → Bool
ends_here [] = true
ends_here (c ∷ cs) = c == b'.'

-- the name at the start of the text, and then its end or a dot
abbrev is_device : List ℕ → List ℕ → Bool
is_device [] cs = ends_here cs
is_device (n ∷ ns) [] = false
is_device (n ∷ ns) (c ∷ cs) = (n == ignore_case c) && is_device ns cs

-- the same with a digit after the name
abbrev is_port : List ℕ → List ℕ → Bool
is_port [] [] = false
is_port [] (c ∷ cs) = is_digit c && ends_here cs
is_port (n ∷ ns) [] = false
is_port (n ∷ ns) (c ∷ cs) = (n == ignore_case c) && is_port ns cs

-- `_RESERVED`
abbrev is_reserved : List ℕ → Bool
is_reserved part =
    any (λ name. is_device (codes name) part)
      ("con" ∷ "prn" ∷ "aux" ∷ "nul" ∷ "conin$" ∷ "conout$" ∷ "clock$" ∷ [])
    || is_port (codes "com") part
    || is_port (codes "lpt") part

abbrev alias_end : List ℕ → Bool
alias_end (t ∷ d ∷ cs) = (t == b'~') && is_digit d && ends_here cs
alias_end _ = false

-- up to `n` more characters of the name before the tilde
abbrev alias_from : ℕ → List ℕ → Bool
alias_from zero cs = alias_end cs
alias_from (suc n) [] = false
alias_from (suc n) (c ∷ cs) =
    let rest = alias_from n cs in alias_end (c ∷ cs) || (not (c == b'.') && not (c == b'/') && rest)

-- `_SHORT_ALIAS`
abbrev is_short_alias : List ℕ → Bool
is_short_alias [] = false
is_short_alias (c ∷ cs) = not (c == b'.') && not (c == b'/') && alias_from 5 cs

abbrev ends_badly : List ℕ → Bool
ends_badly [] = false
ends_badly (c ∷ []) = (c == b' ') || (c == b'.')
ends_badly (c ∷ d ∷ cs) = ends_badly (d ∷ cs)

abbrev is_forbidden : ℕ → Bool
is_forbidden c = ltb c 32 || any (λ d. c == d) (codes "<>\"|?*:")

abbrev pub is_drive : List ℕ → Bool
is_drive (c ∷ d ∷ cs) = ((leb b'A' c && leb c b'Z') || (leb b'a' c && leb c b'z')) && (d == b':')
is_drive _ = false

abbrev pub is_none_of : ℕ → List ℕ → Bool
is_none_of c cs = not (any (λ d. d == c) cs)

module _ (u : Unicode) where
  abbrev pub is_part : List ℕ → Bool
  is_part [] = false
  is_part (c ∷ cs) =
      let part = c ∷ cs in
      not (same_bytes part (codes "."))
      && not (same_bytes part (codes ".."))
      && u.is_nfc part
      && not (ends_badly part)
      && not (is_reserved part)
      && not (is_short_alias part)
      && not (any is_forbidden part)

  unfoldable pub is_relative : List ℕ → Bool
  is_relative [] = false
  is_relative (c ∷ cs) =
      let value = c ∷ cs in
      is_none_of 0 value
      && is_none_of b'\\' value
      && not (c == b'/')
      && not (is_drive value)
      && all is_part (split b'/' value)

  -- `check_relative`
  abbrev pub relative : List ℕ → Check
  relative value = expect (is_relative value) "invalid_relative_path"

  abbrev pub check_relative : Json → Check
  check_relative (str s) = relative (codes s)
  check_relative _ = some (failing "invalid_relative_path")

  -- the paths above a path, as texts
  unfoldable pub parents_of : List ℕ → List (List ℕ)
  parents_of folded = map (join b'/') (heads (split b'/' folded))

  abbrev pub is_in : List (List ℕ) → List ℕ → Bool
  is_in names name = any (λ n. same_bytes n name) names

  -- the first loop of `_check_collisions`, after the names that were seen
  unfoldable pub distinct : List (List ℕ) → List (List ℕ) → Check
  distinct seen [] = none
  distinct seen (name ∷ names) =
      let rest = distinct (u.casefold name ∷ seen) names in
      first
        (relative name ∷ expect (not (is_in seen (u.casefold name))) "path_collision" ∷ rest ∷ [])

  -- the second loop: no file is above a path
  unfoldable pub above : List (List ℕ) → List (List ℕ) → Check
  above files [] = none
  above files (name ∷ names) =
      let rest = above files names in
      first (
        expect (not (any (is_in files) (parents_of (u.casefold name)))) "path_collision"
        ∷ rest
        ∷ [])

  abbrev pub files_among : List (List ℕ) → List (List ℕ) → List (List ℕ)
  files_among directories [] = []
  files_among directories (name ∷ names) =
      let rest = files_among directories names in
      if is_in directories name then rest else name ∷ rest

  -- `_check_collisions`
  unfoldable pub check_collisions : List (List ℕ) → List (List ℕ) → Check
  check_collisions names directories = first (
      distinct [] names
      ∷ above (files_among (map u.casefold directories) (map u.casefold names)) names
      ∷ [])
