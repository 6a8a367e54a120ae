-- ===== src/Prelude/Bits/Masks.antt =====
-- Masks of the lowest bits.
use Prim.Native.Nat.{ℕ, zero, suc, ◌+◌, ◌-◌, ◌*◌, ◌/◌, ◌%◌, ◌^◌, ◌<◌, bit_and, bit_or}
use mathlib.Core.Path.{◌≡◌, sym, ap, ◌∙◌}
use native.Mathlib.Nat.{
  mod-lt, mod-le, mod-eq_of_lt, add-mul-mod_self_left, mod-add-div, one-le-pow, pow-suc, mul_assoc,
  mul_comm,
}
use native.Mathlib.Omega.{arith}
use os_jisaku.Prelude.Bits.Step.{bit_and_step, bit_or_step, bit_or-zero, bit_and-zero}

-- The remainder by twice a number, from the lowest bit and the rest.
pub mod_twice : (x p : ℕ) → 0 < p → x % (p * 2) ≡ x % 2 + 2 * (x / 2 % p)
mod_twice x p h =
    let split : x ≡ (x % 2 + 2 * (x / 2 % p)) + p * 2 * (x / 2 / p) =
      rw (mul_assoc p 2 (x / 2 / p), mul_comm 2 (x / 2 / p), ← mul_assoc p (x / 2 / p) 2)
        (omega (arith, mod-add-div (x / 2) p)) in
    let small : x % 2 + 2 * (x / 2 % p) < p * 2 = omega (arith, mod-lt (x / 2) h) in
    ap (λ y. y % (p * 2)) split
    ∙ add-mul-mod_self_left (x % 2 + 2 * (x / 2 % p)) (p * 2) (x / 2 / p)
    ∙ mod-eq_of_lt small

pub bit_and-ones : (k x : ℕ) → bit_and x (2 ^ k - 1) ≡ x % 2 ^ k
bit_and-ones zero x = omega (arith, bit_and_step x 0, bit_and-zero (x / 2))
bit_and-ones (suc k) x =
    let p = one-le-pow k 2 (omega arith) in
    let half : (2 ^ suc k - 1) / 2 ≡ 2 ^ k - 1 = omega (arith, pow-suc 2 k, p) in
    let odd : (2 ^ suc k - 1) % 2 ≡ 1 = omega (arith, pow-suc 2 k, p) in
    let e : bit_and x (2 ^ suc k - 1) ≡ x % 2 + 2 * bit_and (x / 2) (2 ^ k - 1) =
      rw (bit_and_step x (2 ^ suc k - 1), half, odd) (omega arith) in
    rw (e, bit_and-ones k (x / 2), pow-suc 2 k) (sym (mod_twice x (2 ^ k) p))

-- The lowest bit of a 32-bit word, replaced.
pub replace_lowest :
    (x c : ℕ) → c < 2 → bit_or (bit_and x (2 ^ 32 - 2)) c ≡ 2 * (x / 2 % 2 ^ 31) + c
replace_lowest x c h =
    let m = x / 2 % 2 ^ 31 in
    let e : bit_and x (2 ^ 32 - 2) ≡ 2 * m =
      omega (arith, bit_and_step x (2 ^ 32 - 2), bit_and-ones 31 (x / 2)) in
    let half : 2 * m / 2 ≡ m = omega arith in
    let none : c / 2 ≡ 0 = omega arith in
    let o : bit_or (2 * m / 2) (c / 2) ≡ m = rw (half, none) (bit_or-zero m) in
    rw e (omega (arith, bit_or_step (2 * m) c, o))

-- The mask of the bits from `k` up to `k + n`, on a number of that many bits.
pub bit_and-high : (k n x : ℕ) → x < 2 ^ (k + n) → bit_and x (2 ^ (k + n) - 2 ^ k) ≡ x - x % 2 ^ k
bit_and-high zero n x h =
    let e : 0 + n ≡ n = omega arith in
    let small : x % 2 ^ n ≡ x = mod-eq_of_lt (rw e at h) in
    rw (e, bit_and-ones n x, small) (omega arith)
bit_and-high (suc k) n x h =
    let e : suc k + n ≡ suc (k + n) = omega arith in
    let twice : 2 ^ (suc k + n) ≡ 2 ^ (k + n) * 2 = rw (e, pow-suc 2 (k + n)) in
    let p = one-le-pow k 2 (omega arith) in
    let rec = bit_and-high k n (x / 2) (omega (arith, twice)) in
    let half : (2 ^ (k + n) * 2 - 2 ^ k * 2) / 2 ≡ 2 ^ (k + n) - 2 ^ k = omega arith in
    rw (twice, pow-suc 2 k, mod_twice x (2 ^ k) p)
      (omega (
        arith,
        bit_and_step x (2 ^ (k + n) * 2 - 2 ^ k * 2),
        rw (← half) at rec,
        mod-le (x / 2) (2 ^ k),
      ))
