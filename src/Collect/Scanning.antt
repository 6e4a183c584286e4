-- ===== src/Collect/Scanning.antt =====
-- How collect searches a user agent: `strings.ToLower` and `strings.Contains`.
use analytics_core.Prelude.{
  ℕ, zero, suc, ◌+◌, Bool, true, false, ◌&&◌, ◌||◌, List, [], ◌∷◌, ◌==◌, leb, Text, if◌then◌else◌,
}

abbrev pub has_prefix : Text → Text → Bool
has_prefix s [] = true
has_prefix [] (p ∷ ps) = false
has_prefix (c ∷ s) (p ∷ ps) = c == p && has_prefix s ps

abbrev kelvin : Text → Bool
kelvin s = has_prefix s (0xE2 ∷ 0x84 ∷ 0xAA ∷ [])

abbrev dotted_i : Text → Bool
dotted_i s = has_prefix s (0xC4 ∷ 0xB0 ∷ [])

abbrev small_byte : ℕ → ℕ
small_byte c = if leb 65 c && leb c 90 then c + 32 else c

-- The text behind the first `skip` bytes.
abbrev lower_from : ℕ → Text → Text
lower_from skip [] = []
lower_from (suc skip) (c ∷ s) = lower_from skip s
lower_from zero (c ∷ s) =
    let skip = if kelvin (c ∷ s) then 2 else if dotted_i (c ∷ s) then 1 else 0 in
    let small = if kelvin (c ∷ s) then 107 else if dotted_i (c ∷ s) then 105 else small_byte c in
    small ∷ lower_from skip s

-- What a search for an ASCII text sees of `strings.ToLower`: the letters A to Z become small, as do
-- the Kelvin sign (0xE2 0x84 0xAA) and the dotted I (0xC4 0xB0), which are k and i. No other character has a
-- small form in ASCII.
unfoldable pub to_lower : Text → Text
to_lower s = lower_from 0 s

unfoldable pub contains : Text → Text → Bool
contains [] needle = has_prefix [] needle
contains (c ∷ s) needle = has_prefix (c ∷ s) needle || contains s needle

abbrev pub contains_any : Text → List Text → Bool
contains_any s [] = false
contains_any s (needle ∷ needles) = contains s needle || contains_any s needles
