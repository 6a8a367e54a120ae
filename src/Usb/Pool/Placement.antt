-- ===== src/Usb/Pool/Placement.antt =====
-- kernel/usb/memory.cpp: the blocks that `AllocMem` returns.
use native.Mathlib.Nat.{
  mod-add-div, mod-eq_of_lt, mod-le, mod-lt, mul-suc, mul_assoc, one-le-pow, pow-le-pow_right,
}
use os_jisaku.Prelude.{
  Bool-cases, arith, bit_and, inl, inr, ltb, ltb→le, ltb→lt, none, some, suc, true, zero, ℕ, ◌%◌,
  ◌*◌, ◌+◌, ◌-◌, ◌/◌, ◌<◌, ◌^◌, ◌∙◌, ◌≡◌, ◌≤◌, ◌⊎◌,
}
use os_jisaku.Prelude.Bits.Fields.{pow_add}
use os_jisaku.Prelude.Bits.Masks.{bit_and-high}
use os_jisaku.Usb.Pool.{alloc_mem, ceil, k_memory_pool_size, placed}

-- Rounding up to a power: a multiple, not below the number, and less than the power above it.
ceil-multiple :
    (k v : ℕ)
    → k < 32
    → v < 2 ^ 63
    → (m : ℕ) × (ceil v (2 ^ k) ≡ 2 ^ k * m) × (v ≤ ceil v (2 ^ k)) × (ceil v (2 ^ k) < v + 2 ^ k)
unfolding ceil
ceil-multiple k v h lt =
    let x = v + 2 ^ k - 1 in
    let one = one-le-pow k 2 (omega arith) in
    let p : 2 ^ k ≤ 2 ^ 31 = pow-le-pow_right {n = 2} (omega arith) {j = 31} (omega arith) in
    let word_bits : k + (64 - k) ≡ 64 = omega arith in
    let small : x % 2 ^ 64 ≡ x = mod-eq_of_lt (omega arith) in
    let mask : bit_and x (2 ^ 64 - 2 ^ k) ≡ x - x % 2 ^ k =
      rw word_bits at (bit_and-high k (64 - k) x (rw word_bits (omega arith))) in
    rw (small, mask)
      (
        x / 2 ^ k,
        omega (arith, mod-add-div x (2 ^ k)),
        omega (arith, mod-lt x one),
        omega (arith, mod-le x (2 ^ k)),
      )

-- What a block has to be, with an alignment of 2 ^ `j` and a boundary of 2 ^ `k`.
pub record IsPlaced (size j k alloc_ptr p : ℕ) : Type 0 where
  pub aligned : (m : ℕ) × (p ≡ 2 ^ j * m)
  pub above : alloc_ptr ≤ p
  pub near : p < alloc_ptr + 2 ^ j + 2 ^ k
  pub within : (m : ℕ) × (2 ^ k * m ≤ p) × (p + size ≤ 2 ^ k * m + 2 ^ k)

-- A multiple of the larger power is one of the smaller.
multiple : (j k m : ℕ) → j ≤ k → (n : ℕ) × (2 ^ k * m ≡ 2 ^ j * n)
multiple j k m h =
    let e : j + (k - j) ≡ k = omega arith in
    let split : 2 ^ k ≡ 2 ^ j * 2 ^ (k - j) = rw e at (pow_add j (k - j)) in
    (2 ^ (k - j) * m, rw split (mul_assoc (2 ^ j) (2 ^ (k - j)) m))

-- Where the next boundary is far enough, the block ends before it.
before_boundary :
    (p c v size : ℕ)
    → v ≤ p * c
    → p * c < v + p
    → v + size ≤ p * c
    → 0 < p
    → (m : ℕ) × (p * m ≤ v) × (v + size ≤ p * m + p)
before_boundary p zero v size le lt fit h = (0, omega arith, omega arith)
before_boundary p (suc c) v size le lt fit h =
    (c, omega (arith, mul-suc p c), omega (arith, mul-suc p c))

placed-IsPlaced :
    (size j k alloc_ptr : ℕ)
    → j ≤ k
    → k < 32
    → alloc_ptr < 2 ^ 62
    → size ≤ 2 ^ k
    → IsPlaced size j k alloc_ptr (placed size (2 ^ j) (2 ^ k) alloc_ptr)
unfolding placed
placed-IsPlaced size j k alloc_ptr jk h bound fit =
    let pj : 2 ^ j ≤ 2 ^ 31 = pow-le-pow_right {n = 2} (omega arith) {j = 31} (omega arith) in
    let pk : 2 ^ k ≤ 2 ^ 31 = pow-le-pow_right {n = 2} (omega arith) {j = 31} (omega arith) in
    let oj = one-le-pow j 2 (omega arith) in
    let ok = one-le-pow k 2 (omega arith) in
    let tj : ltb 0 (2 ^ j) ≡ true = ground (arith, oj) in
    let tk : ltb 0 (2 ^ k) ≡ true = ground (arith, ok) in
    let (m, e, le, lt) = ceil-multiple j alloc_ptr (omega arith) (omega arith) in
    let v = ceil alloc_ptr (2 ^ j) in
    let (c, f, le', lt') = ceil-multiple k v h (omega arith) in
    let small : (v + size) % 2 ^ 64 ≡ v + size = mod-eq_of_lt (omega arith) in
    elim (Bool-cases (ltb (ceil v (2 ^ k)) (v + size))) [
      | inl t ↦
          let (n, g) = multiple j k c jk in
          rw (tj, tk, small, t)
            (record {
              aligned = (n, f ∙ g);
              above = omega arith;
              near = omega arith;
              within = (c, omega arith, omega arith);
            })
      | inr u ↦
          rw (tj, tk, small, u)
            (record {
              aligned = (m, e);
              above = le;
              near = omega arith;
              within =
                  before_boundary (2 ^ k) c v size (omega arith) (omega arith)
                    (ground (arith, ltb→le _ _ u)) ok;
            })
    ]

-- With an alignment of 2 ^ `j` and a boundary of 2 ^ `k`, both below 2 ^ 32, the alignment at most the
-- boundary and the size at most the boundary, in a pool below 2 ^ 61: the call returns a block exactly
-- when it ends inside the pool. The block is aligned, crosses no multiple of the boundary, starts at
-- `alloc_ptr` or above, and `alloc_ptr` is left at its end, so no two blocks overlap.
pub alloc_mem-IsPlaced :
    (memory_pool size j k alloc_ptr : ℕ)
    → j ≤ k
    → k < 32
    → size ≤ 2 ^ k
    → memory_pool < 2 ^ 61
    → alloc_ptr ≤ memory_pool + k_memory_pool_size
    → (p : ℕ) × IsPlaced size j k alloc_ptr p
      × ((p + size ≤ memory_pool + k_memory_pool_size)
            × (alloc_mem memory_pool size (2 ^ j) (2 ^ k) alloc_ptr ≡ (some p, p + size))
          ⊎ (memory_pool + k_memory_pool_size < p + size)
            × (alloc_mem memory_pool size (2 ^ j) (2 ^ k) alloc_ptr ≡ (none, p)))
unfolding alloc_mem
alloc_mem-IsPlaced memory_pool size j k alloc_ptr jk h fit pool ptr =
    let p = placed size (2 ^ j) (2 ^ k) alloc_ptr in
    let block = placed-IsPlaced size j k alloc_ptr jk h (omega arith) fit in
    let pj : 2 ^ j ≤ 2 ^ 31 = pow-le-pow_right {n = 2} (omega arith) {j = 31} (omega arith) in
    let pk : 2 ^ k ≤ 2 ^ 31 = pow-le-pow_right {n = 2} (omega arith) {j = 31} (omega arith) in
    let small : (p + size) % 2 ^ 64 ≡ p + size = mod-eq_of_lt (omega (arith, block.near)) in
    elim (Bool-cases (ltb (memory_pool + k_memory_pool_size) (p + size))) [
      | inl t ↦ (p, block, inr (ltb→lt _ _ t, rw (small, t)))
      | inr f ↦ (p, block, inl (ltb→le _ _ f, rw (small, f)))
    ]
