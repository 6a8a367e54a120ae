-- ===== src/Prelude/Bits/Step.antt =====
-- One binary digit at a time: the native `bit_and` and `bit_or` are recursions on digits with fuel,
-- and here the fuel is dropped.
use Prim.Native.Nat.{
  ℕ, zero, suc, ◌+◌, ◌-◌, ◌*◌, ◌/◌, ◌%◌, ◌≤◌, min, max, bit_and, bit_or, digits, bitwise,
  bit_and-bitwise, bit_or-bitwise,
}
use mathlib.Core.Path.{◌≡◌, refl, ap, ◌∙◌}
use native.Mathlib.Omega.{arith}

module _ (base : ℕ → ℕ) (join : ℕ → ℕ → ℕ) where
  -- A round more than a number has digits changes nothing.
  spare_round : (n x y : ℕ) → x ≤ n → digits base join (suc n) x y ≡ digits base join n x y
  spare_round n zero y h = zero_digits n y
    where
      zero_digits : (n y : ℕ) → digits base join (suc n) 0 y ≡ digits base join n 0 y
      zero_digits zero y = refl
      zero_digits (suc n) y = refl
  spare_round zero (suc x) y h = elim h [ ]
  spare_round (suc n) (suc x) y h =
      ap (λ high. high * 2 + join (suc x % 2) (y % 2))
        (spare_round n (suc x / 2) (y / 2) (omega arith))

  spare_rounds : (k x y : ℕ) → digits base join (x + k) x y ≡ bitwise base join x y
  spare_rounds zero x y = ap (λ n. digits base join n x y) (omega arith)
  spare_rounds (suc k) x y =
      ap (λ n. digits base join n x y) {y = suc (x + k)} (omega arith)
      ∙ (spare_round (x + k) x y (omega arith) ∙ spare_rounds k x y)

  lowest_digit :
      (x y : ℕ)
      → bitwise base join (suc x) y
        ≡ bitwise base join (suc x / 2) (y / 2) * 2 + join (suc x % 2) (y % 2)
  lowest_digit x y =
      ap (λ high. high * 2 + join (suc x % 2) (y % 2))
        (ap (λ n. digits base join n (suc x / 2) (y / 2)) (omega arith)
          ∙ spare_rounds (x - suc x / 2) (suc x / 2) (y / 2))

pub bit_and_step : (x y : ℕ) → bit_and x y ≡ min (x % 2) (y % 2) + 2 * bit_and (x / 2) (y / 2)
bit_and_step zero y = simp bit_and-bitwise (omega arith)
bit_and_step (suc x) y = simp bit_and-bitwise (omega (arith, lowest_digit (λ d. 0) min x y))

pub bit_or_step : (x y : ℕ) → bit_or x y ≡ max (x % 2) (y % 2) + 2 * bit_or (x / 2) (y / 2)
bit_or_step zero y = simp bit_or-bitwise (omega arith)
bit_or_step (suc x) y = simp bit_or-bitwise (omega (arith, lowest_digit (λ d. d) max x y))

none_set : (n x : ℕ) → x ≤ n → (bit_and x 0 ≡ 0) × (bit_or x 0 ≡ x)
none_set n zero h = (refl, refl)
none_set zero (suc x) h = elim h [ ]
none_set (suc n) (suc x) h =
    let (clear, same) = none_set n (suc x / 2) (omega arith) in
    (omega (arith, bit_and_step (suc x) 0), omega (arith, bit_or_step (suc x) 0))

pub bit_and-zero : (x : ℕ) → bit_and x 0 ≡ 0
bit_and-zero x = (none_set x x (omega arith)).0

pub bit_or-zero : (x : ℕ) → bit_or x 0 ≡ x
bit_or-zero x = (none_set x x (omega arith)).1
