-- ===== src/Prelude/Bits/Single.antt =====
-- Single bits of a word: reading one by `& (1 << k)`, setting one by `|`, clearing one by `& ~`.
use os_jisaku.Prelude.Bits.Step.{bit_and_step, bit_or_step, bit_and-zero, bit_or-zero}
use Prim.Native.Nat.{
  ℕ, zero, suc, ◌+◌, ◌-◌, ◌*◌, ◌/◌, ◌%◌, ◌^◌, ◌≤◌, ◌<◌, min, max, bit_and, bit_or,
}
use mathlib.Core.Path.{◌≡◌, refl}
use mathlib.Core.Bool.{Bool, true, false, ◌&&◌, not}
use native.Mathlib.Nat.{one-le-pow, zero-mul, one-mul, pow-suc}
use native.Mathlib.Omega.{arith}
use os_jisaku.Prelude.Tests.{◌==◌, if◌then◌else◌, all_below, all_below_sound}

-- Bit `k` of a number, 0 or 1.
unfoldable pub bit : ℕ → ℕ → ℕ
bit zero w = w % 2
bit (suc k) w = bit k (w / 2)

pub bit-le-one : (k w : ℕ) → bit k w ≤ 1
unfolding bit
bit-le-one zero w = omega arith
bit-le-one (suc k) w = bit-le-one k (w / 2)

pub bit-bit_and : (k a b : ℕ) → bit k (bit_and a b) ≡ min (bit k a) (bit k b)
unfolding bit
bit-bit_and zero a b = omega (arith, bit_and_step a b)
bit-bit_and (suc k) a b =
    let e : bit_and a b / 2 ≡ bit_and (a / 2) (b / 2) = omega (arith, bit_and_step a b) in
    rw e (bit-bit_and k (a / 2) (b / 2))

pub bit-bit_or : (k a b : ℕ) → bit k (bit_or a b) ≡ max (bit k a) (bit k b)
unfolding bit
bit-bit_or zero a b = omega (arith, bit_or_step a b)
bit-bit_or (suc k) a b =
    let e : bit_or a b / 2 ≡ bit_or (a / 2) (b / 2) = omega (arith, bit_or_step a b) in
    rw e (bit-bit_or k (a / 2) (b / 2))

pub bit_and-pow : (k w : ℕ) → bit_and w (2 ^ k) ≡ bit k w * 2 ^ k
unfolding bit
bit_and-pow zero w = omega (arith, bit_and_step w 1, bit_and-zero (w / 2))
bit_and-pow (suc k) w =
    let half : 2 ^ suc k / 2 ≡ 2 ^ k = omega (arith, pow-suc 2 k) in
    let even : 2 ^ suc k % 2 ≡ 0 = omega (arith, pow-suc 2 k) in
    let e : bit_and w (2 ^ suc k) ≡ min (w % 2) 0 + 2 * bit_and (w / 2) (2 ^ k) =
      rw (← half, ← even) (bit_and_step w (2 ^ suc k)) in
    omega (arith, e, bit_and-pow k (w / 2), pow-suc 2 k, mul_twice (bit k (w / 2)) k)
  where
    mul_twice : (q j : ℕ) → q * 2 ^ suc j ≡ q * 2 ^ j * 2
    mul_twice q j = rw (pow-suc 2 j) (omega arith)

-- The masks `1 << k` and `~(1 << k)` of a 64-bit word, bit by bit.
abbrev pub single : ℕ → ℕ
single k = 2 ^ k

abbrev pub all_but : ℕ → ℕ
all_but k = 2 ^ 64 - 1 - 2 ^ k

abbrev masks_at : ℕ → ℕ → Bool
masks_at k j =
    (bit j (single k) == (if k == j then 1 else 0))
    && (bit j (all_but k) == (if k == j then 0 else 1))

masks_table : all_below 64 (λ k. all_below 64 (masks_at k)) ≡ true
unfolding bit
masks_table = refl

masks : (k j : ℕ) → k < 64 → j < 64 → masks_at k j ≡ true
masks k j hk hj =
    all_below_sound 64 (masks_at k) j
      (all_below_sound 64 (λ k. all_below 64 (masks_at k)) k masks_table hk) hj

pub bit-single : (k j : ℕ) → k < 64 → j < 64 → bit j (single k) ≡ (if k == j then 1 else 0)
bit-single k j hk hj = ground (arith, masks k j)

pub bit-all_but : (k j : ℕ) → k < 64 → j < 64 → bit j (all_but k) ≡ (if k == j then 0 else 1)
bit-all_but k j hk hj = ground (arith, masks k j)

test_scaled : (q p : ℕ) → q ≤ 1 → 1 ≤ p → not (q * p == 0) ≡ (q == 1)
test_scaled zero p h k = rw zero-mul refl
test_scaled (suc zero) p h k = rw one-mul (ground arith)
test_scaled (suc (suc q)) p h k = absurd (omega arith)

-- The test `(w & (1 << k)) != 0`.
pub test-bit : (k w : ℕ) → not (bit_and w (2 ^ k) == 0) ≡ (bit k w == 1)
test-bit k w =
    rw (bit_and-pow k w)
      (test_scaled (bit k w) (2 ^ k) (bit-le-one k w) (one-le-pow k 2 (omega arith)))

-- Setting bit `k` sets it and keeps the others.
pub test-set :
    (k j w : ℕ)
    → k < 64
    → j < 64
    → (bit j (bit_or w (2 ^ k)) == 1) ≡ (if k == j then true else (bit j w == 1))
test-set k j w hk hj = ground (arith, bit-bit_or j w (2 ^ k), bit-single k j hk hj, bit-le-one j w)

-- Clearing bit `k` clears it and keeps the others.
pub test-clear :
    (k j w : ℕ)
    → k < 64
    → j < 64
    → (bit j (bit_and w (2 ^ 64 - 1 - 2 ^ k)) == 1) ≡ (if k == j then false else (bit j w == 1))
test-clear k j w hk hj =
    ground (arith, bit-bit_and j w (2 ^ 64 - 1 - 2 ^ k), bit-all_but k j hk hj, bit-le-one j w)

-- Two numbers without a common bit: a multiple of a power, and a number below that power.
pub bit_or-disjoint : (k x y q : ℕ) → x ≡ q * 2 ^ k → y < 2 ^ k → bit_or x y ≡ x + y
bit_or-disjoint zero x y q e h =
    let none : y ≡ 0 = omega arith in rw none (omega (arith, bit_or-zero x))
bit_or-disjoint (suc k) x y q e h =
    let twice = pow-suc 2 k in
    let even : q * 2 ^ suc k ≡ 2 * (q * 2 ^ k) = rw twice (omega arith) in
    let halves =
      bit_or-disjoint k (x / 2) (y / 2) q (omega (arith, e, even)) (omega (arith, twice)) in
    omega (arith, bit_or_step x y, halves, e, even)
