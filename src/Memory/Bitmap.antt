-- ===== src/Memory/Bitmap.antt =====
-- The bitmap as a set of frames: what a read sees after a write, and after a range of writes.
use os_jisaku.Errors.{success}
use os_jisaku.Memory.{
  BitmapMemoryManager, FrameId, add_size, free, get_bit, mark_allocated, set_bit, set_bits,
}
use os_jisaku.Prelude.{
  Bool, ap, arith, false, if◌then◌else◌, leb, ltb, refl, suc, true, zero, ℕ, ◌%◌, ◌&&◌, ◌+◌, ◌/◌,
  ◌==◌, ◌^◌, ◌≡◌, ◌≤◌,
}
use os_jisaku.Prelude.Bits.Single.{bit, test-bit, test-clear, test-set}

-- A read is the bit of its line.
get_bit-bit :
    (m : BitmapMemoryManager) (f : FrameId)
    → get_bit m f ≡ (bit (f % 64) (m.alloc_map (f / 64)) == 1)
unfolding get_bit
get_bit-bit m f = test-bit (f % 64) (m.alloc_map (f / 64))

-- Two frames are one when their lines and their bits are.
same_frame : (f g : FrameId) → (f == g) ≡ ((g / 64 == f / 64) && (f % 64 == g % 64))
same_frame f g = ground arith

-- A read after a write sees the write at its own frame and the old bit at any other.
pub get_bit-set_bit :
    (m : BitmapMemoryManager) (f : FrameId) (b : Bool) (g : FrameId)
    → get_bit (set_bit m f b) g ≡ (if f == g then b else get_bit m g)
unfolding set_bit
get_bit-set_bit m f true g = ground (
  arith,
  get_bit-bit (set_bit m f true) g,
  get_bit-bit m g,
  test-set (f % 64) (g % 64) (m.alloc_map (f / 64)) (omega arith) (omega arith),
  ap (λ l. bit (g % 64) (m.alloc_map l)) {x = g / 64} {y = f / 64},
)
get_bit-set_bit m f false g = ground (
  arith,
  get_bit-bit (set_bit m f false) g,
  get_bit-bit m g,
  test-clear (f % 64) (g % 64) (m.alloc_map (f / 64)) (omega arith) (omega arith),
  ap (λ l. bit (g % 64) (m.alloc_map l)) {x = g / 64} {y = f / 64},
)

-- The frames from `start` on, `n` of them.
abbrev pub in_block : FrameId → ℕ → FrameId → Bool
in_block start n f = leb start f && ltb f (start + n)

-- A loop over a block that does not pass the largest `size_t` writes the bits of the block, and
-- those only.
pub get_bit-set_bits :
    (m : BitmapMemoryManager) (start : FrameId) (b : Bool) (left i : ℕ) (f : FrameId)
    → start + i + left ≤ 2 ^ 64
    → get_bit (set_bits m start b left i) f
      ≡ (if in_block (start + i) left f then b else get_bit m f)
unfolding set_bits
get_bit-set_bits m start b zero i f h = ground arith
get_bit-set_bits m start b (suc left) i f h = ground (
  arith,
  get_bit-set_bits (set_bit m (add_size start i) b) start b left (i + 1) f (omega arith),
  get_bit-set_bit m (add_size start i) b f,
)

-- After `mark_allocated` the frames of the block are in use, and every other frame is as it was.
pub get_bit-mark_allocated :
    (m : BitmapMemoryManager) (start : FrameId) (n : ℕ) (f : FrameId)
    → start + n ≤ 2 ^ 64
    → get_bit (mark_allocated m start n) f ≡ (if in_block start n f then true else get_bit m f)
unfolding mark_allocated
get_bit-mark_allocated m start n f h =
    ground (arith, get_bit-set_bits m start true n 0 f (omega arith))

-- `free` reports success; after it the frames of the block are not in use, and every other frame is
-- as it was.
pub get_bit-free :
    (m : BitmapMemoryManager) (start : FrameId) (n : ℕ) (f : FrameId)
    → start + n ≤ 2 ^ 64
    → ((free m start n).0 ≡ success)
      × (get_bit (free m start n).1 f ≡ (if in_block start n f then false else get_bit m f))
unfolding free
get_bit-free m start n f h =
    (refl, ground (arith, get_bit-set_bits m start false n 0 f (omega arith)))

-- The writes leave the range alone.
pub range-set_bits :
    (m : BitmapMemoryManager) (start : FrameId) (b : Bool) (left i : ℕ)
    → ((set_bits m start b left i).range_begin ≡ m.range_begin)
      × ((set_bits m start b left i).range_end ≡ m.range_end)
unfolding set_bits set_bit
range-set_bits m start b zero i = (refl, refl)
range-set_bits m start b (suc left) i =
    ground (arith, range-set_bits (set_bit m (add_size start i) b) start b left (i + 1))

pub range-mark_allocated :
    (m : BitmapMemoryManager) (start : FrameId) (n : ℕ)
    → ((mark_allocated m start n).range_begin ≡ m.range_begin)
      × ((mark_allocated m start n).range_end ≡ m.range_end)
unfolding mark_allocated
range-mark_allocated m start n = range-set_bits m start true n 0

-- A read depends on one line only.
pub get_bit-line :
    (m m' : BitmapMemoryManager) (f : FrameId)
    → m.alloc_map (f / 64) ≡ m'.alloc_map (f / 64)
    → get_bit m f ≡ get_bit m' f
get_bit-line m m' f e = rw (get_bit-bit m f, get_bit-bit m' f, e)
