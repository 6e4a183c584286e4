-- ===== src/Prelude/Trim.antt =====
-- `strings.TrimSpace`: it drops the UTF-8 encodings of Unicode's white space at both ends.
use mathlib.Core.Bool.{Bool, true, false, ◌&&◌, ◌||◌}
use mathlib.Core.Option.{Option, none, some}
use mathlib.Core.List.{List, [], ◌∷◌, map, reverse, reverse-cons, reverse-reverse}
use Prim.Native.Nat.{ℕ, zero, suc, ◌≤◌, ◌<◌}
use mathlib.Core.Path.{◌≡◌, refl, ap, ◌∙◌}
use native.Mathlib.Omega.{arith}
use analytics_core.Prelude.Tests.{◌==◌, ltb, leb, if◌then◌else◌}
use analytics_core.Prelude.Lists.{length, All, All-append}
use analytics_core.Prelude.Texts.{Text}

-- `unicode.IsSpace`: tab to carriage return, space, U+0085, U+00A0, U+1680, U+2000 to U+200A,
-- U+2028, U+2029, U+202F, U+205F and U+3000.
abbrev pub white_space : List Text
white_space =
    (9 ∷ [])
    ∷ (10 ∷ [])
    ∷ (11 ∷ [])
    ∷ (12 ∷ [])
    ∷ (13 ∷ [])
    ∷ (32 ∷ [])
    ∷ (0xC2 ∷ 0x85 ∷ [])
    ∷ (0xC2 ∷ 0xA0 ∷ [])
    ∷ (0xE1 ∷ 0x9A ∷ 0x80 ∷ [])
    ∷ (0xE2 ∷ 0x80 ∷ 0x80 ∷ [])
    ∷ (0xE2 ∷ 0x80 ∷ 0x81 ∷ [])
    ∷ (0xE2 ∷ 0x80 ∷ 0x82 ∷ [])
    ∷ (0xE2 ∷ 0x80 ∷ 0x83 ∷ [])
    ∷ (0xE2 ∷ 0x80 ∷ 0x84 ∷ [])
    ∷ (0xE2 ∷ 0x80 ∷ 0x85 ∷ [])
    ∷ (0xE2 ∷ 0x80 ∷ 0x86 ∷ [])
    ∷ (0xE2 ∷ 0x80 ∷ 0x87 ∷ [])
    ∷ (0xE2 ∷ 0x80 ∷ 0x88 ∷ [])
    ∷ (0xE2 ∷ 0x80 ∷ 0x89 ∷ [])
    ∷ (0xE2 ∷ 0x80 ∷ 0x8A ∷ [])
    ∷ (0xE2 ∷ 0x80 ∷ 0xA8 ∷ [])
    ∷ (0xE2 ∷ 0x80 ∷ 0xA9 ∷ [])
    ∷ (0xE2 ∷ 0x80 ∷ 0xAF ∷ [])
    ∷ (0xE2 ∷ 0x81 ∷ 0x9F ∷ [])
    ∷ (0xE3 ∷ 0x80 ∷ 0x80 ∷ [])
    ∷ []

strip_prefix : Text → Text → Option Text
strip_prefix [] s = some s
strip_prefix (p ∷ ps) [] = none
strip_prefix (p ∷ ps) (c ∷ s) = let rest = strip_prefix ps s in if p == c then rest else none

-- The text behind the first prefix of the list that it has.
strip_any : List Text → Text → Option Text
strip_any [] s = none
strip_any (p ∷ ps) s =
    let later = strip_any ps s in elim (strip_prefix p s) [ some rest ↦ some rest | none ↦ later ]

-- Each round drops a byte at least, so the length is fuel enough.
trim_left : ℕ → List Text → Text → Text
trim_left zero ps s = s
trim_left (suc fuel) ps s = elim (strip_any ps s) [ none ↦ s | some rest ↦ trim_left fuel ps rest ]

unfoldable pub trim_space : Text → Text
unfolding strip_prefix strip_any trim_left
trim_space s =
    let t = trim_left (length s) white_space s in
    reverse (trim_left (length t) (map reverse white_space) (reverse t))

-- A byte of ASCII that prints, which no encoding of white space has in it.
abbrev pub Visible : ℕ → Type 0
Visible c = (33 ≤ c) × (c < 128)

abbrev starts_hidden : List Text → Bool
starts_hidden [] = true
starts_hidden ([] ∷ ps) = false
starts_hidden ((b ∷ p) ∷ ps) = (ltb b 33 || leb 128 b) && starts_hidden ps

hidden_head :
    (b c : ℕ) (p s : Text)
    → (ltb b 33 || leb 128 b) ≡ true
    → Visible c
    → strip_prefix (b ∷ p) (c ∷ s) ≡ none
unfolding strip_prefix
hidden_head b c p s h v = ground (arith, h)

kept :
    (ps : List Text) (c : ℕ) (s : Text)
    → starts_hidden ps ≡ true
    → Visible c
    → strip_any ps (c ∷ s) ≡ none
unfolding strip_any
kept [] c s h v = refl
kept ([] ∷ ps) c s h v = absurd (cc h)
kept ((b ∷ p) ∷ ps) c s h v =
    rw (hidden_head b c p s (ground (arith, h)) v, strip_any) (kept ps c s (ground (arith, h)) v)

nothing_left : (ps : List Text) → starts_hidden ps ≡ true → strip_any ps [] ≡ none
unfolding strip_any strip_prefix
nothing_left [] h = refl
nothing_left ([] ∷ ps) h = absurd (cc h)
nothing_left ((b ∷ p) ∷ ps) h = nothing_left ps (ground (arith, h))

trim_left-kept :
    (fuel : ℕ) (ps : List Text) (s : Text) → strip_any ps s ≡ none → trim_left fuel ps s ≡ s
unfolding trim_left
trim_left-kept zero ps s h = refl
trim_left-kept (suc fuel) ps s h = rw (h, trim_left) refl

trim-Visible :
    (fuel : ℕ) (ps : List Text) (s : Text)
    → starts_hidden ps ≡ true
    → All Visible s
    → trim_left fuel ps s ≡ s
trim-Visible fuel ps [] h v = trim_left-kept fuel ps [] (nothing_left ps h)
trim-Visible fuel ps (c ∷ s) h v = trim_left-kept fuel ps (c ∷ s) (kept ps c s h v.0)

reverse-All : (P : ℕ → Type 0) (s : Text) → All P s → All P (reverse s)
reverse-All P [] h = tt
reverse-All P (c ∷ s) h =
    rw (reverse-cons c s) (All-append P (reverse s) (c ∷ []) (reverse-All P s h.1) (h.0, tt))

-- A text of visible ASCII is left as it is.
pub trim_space-Visible : (s : Text) → All Visible s → trim_space s ≡ s
unfolding trim_space
trim_space-Visible s v =
    ap (λ t. reverse (trim_left (length t) (map reverse white_space) (reverse t)))
      (trim-Visible (length s) white_space s refl v)
    ∙ ap reverse (
        trim-Visible (length s) (map reverse white_space) (reverse s) refl
          (reverse-All Visible s v))
    ∙ reverse-reverse s
