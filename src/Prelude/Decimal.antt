-- ===== src/Prelude/Decimal.antt =====
-- Numbers in decimal, as strconv and fmt print them.
use Prim.Native.Nat.{ℕ, zero, suc, ◌+◌, ◌-◌, ◌*◌, ◌/◌, ◌%◌, ◌^◌, ◌<◌, ◌≤◌}
use mathlib.Core.Path.{◌≡◌, ap, ◌∙◌}
use mathlib.Core.Bool.{Bool, true, ◌&&◌}
use mathlib.Core.Option.{Option, none, some}
use mathlib.Core.Logic.{inl, inr}
use mathlib.Core.List.{[], ◌∷◌, ◌++◌}
use native.Mathlib.Omega.{arith}
use analytics_core.Prelude.Tests.{ltb, leb, if◌then◌else◌, Bool-cases}
use analytics_core.Prelude.Lists.{All, All-append}
use analytics_core.Prelude.Texts.{Text}
use analytics_core.Prelude.Words.{word32}

-- The decimal digits of a number below 10 ^ fuel.
abbrev pub digits : ℕ → ℕ → Text
digits zero n = []
digits (suc fuel) n =
    let front = digits fuel (n / 10) in
    if ltb n 10 then (48 + n) ∷ [] else front ++ (48 + n % 10) ∷ []

abbrev pub is_digit : ℕ → Bool
is_digit c = leb 48 c && leb c 57

-- Digits read as an int32, on top of the number read before.
abbrev pub read_digits : ℕ → Text → Option ℕ
read_digits acc [] = some acc
read_digits acc (c ∷ s) =
    let rest = read_digits ((acc * 10 + (c - 48)) % word32) s in if is_digit c then rest else none

pub digits-All : (fuel n : ℕ) → All (λ c. is_digit c ≡ true) (digits fuel n)
digits-All zero n = tt
digits-All (suc fuel) n = elim (Bool-cases (ltb n 10)) [
  | inl small ↦ rw small (ground (arith, small), tt)
  | inr large ↦
      rw large (All-append _ (digits fuel (n / 10)) _ (digits-All fuel (n / 10)) (ground arith, tt))
]

read-append :
    (acc v d : ℕ) (s : Text)
    → d < 10
    → read_digits acc s ≡ some v
    → read_digits acc (s ++ (48 + d) ∷ []) ≡ some ((v * 10 + d) % word32)
read-append acc v d [] small h = ground (arith, h)
read-append acc v d (c ∷ s) small h = elim (Bool-cases (is_digit c)) [
  | inl digit ↦ rw digit (read-append ((acc * 10 + (c - 48)) % word32) v d s small (rw digit at h))
  | inr other ↦ absurd (cc (rw other at h))
]

pow_suc : (f : ℕ) → 10 ^ suc f ≡ 10 * 10 ^ f
pow_suc f = omega arith

pub read-digits :
    (fuel n : ℕ) → n < 10 ^ fuel → n < word32 → 0 < fuel → read_digits 0 (digits fuel n) ≡ some n
read-digits zero n below room some_is = absurd (omega (arith, some_is))
read-digits (suc fuel) n below room some_is = elim (Bool-cases (ltb n 10)) [
  | inl small ↦ rw small (read_one n (ground (arith, small)))
  | inr large ↦ rw large (
      read-append 0 (n / 10) (n % 10) (digits fuel (n / 10)) (omega arith) (
        read-digits fuel (n / 10) (front fuel below (ground (arith, large))) (omega (arith, room))
          (some_fuel fuel below (ground (arith, large))))
      ∙ ap some (omega (arith, room)))
]
  where
    read_one : (m : ℕ) → m < 10 → read_digits 0 ((48 + m) ∷ []) ≡ some m
    read_one m h = ground (arith, h)

    front : (f : ℕ) → n < 10 ^ suc f → 10 ≤ n → n / 10 < 10 ^ f
    front f h k = omega (arith, h, k, pow_suc f)

    some_fuel : (f : ℕ) → n < 10 ^ suc f → 10 ≤ n → 0 < f
    some_fuel zero h k = absurd (omega (arith, h, k))
    some_fuel (suc f) h k = omega arith
