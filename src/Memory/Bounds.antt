-- ===== src/Memory/Bounds.antt =====
-- Which lines of `alloc_map_` the operations write. The array has `map_lines` lines.
use os_jisaku.Errors.{WithError}
use os_jisaku.Memory.{
  Allocation, BitmapMemoryManager, FrameId, add_size, allocate, frame_count, get_bit, map_lines,
  mark_allocated, set_bit, set_bits,
}
use os_jisaku.Memory.Allocate.{Allocates, allocate-Allocates, found, full}
use os_jisaku.Memory.Bitmap.{get_bit-line, get_bit-mark_allocated}
use os_jisaku.Prelude.{
  Bool, Option, arith, false, refl, some, suc, true, zero, ℕ, ◌+◌, ◌/◌, ◌<◌, ◌^◌, ◌∙◌, ◌≡◌, ◌≢◌,
  ◌≤◌,
}

-- The writes of a loop whose frames lie below `frame_count` stay inside the array.
pub set_bits-inside :
    (m : BitmapMemoryManager) (start : FrameId) (b : Bool) (left i line : ℕ)
    → start + i + left ≤ frame_count
    → map_lines ≤ line
    → (set_bits m start b left i).alloc_map line ≡ m.alloc_map line
unfolding set_bits set_bit
set_bits-inside m start b zero i line h out = refl
set_bits-inside m start b (suc left) i line h out =
    set_bits-inside (set_bit m (add_size start i) b) start b left (i + 1) line (omega arith) out
    ∙ ground arith

-- With a range that ends within the array, whatever `allocate` returns, no line past the array has
-- been written.
pub allocate-inside :
    (m : BitmapMemoryManager) (n : ℕ) (w : WithError FrameId) (m' : BitmapMemoryManager) (line : ℕ)
    → m.range_begin ≤ m.range_end
    → m.range_end ≤ frame_count
    → 0 < n
    → allocate m n ≡ some (w, m')
    → map_lines ≤ line
    → m'.alloc_map line ≡ m.alloc_map line
allocate-inside m n w m' line ordered bounded n_pos e out =
    inside (allocate-Allocates m n ordered (omega arith) n_pos) e
  where
    inside :
        {r : Option Allocation}
        → Allocates m n r
        → r ≡ some (w, m')
        → m'.alloc_map line ≡ m.alloc_map line
    inside (found start block lowest) e =
        let same : mark_allocated m start n ≡ m' = cc in
        rw (← same) (
          unfold mark_allocated in
          set_bits-inside m start true n 0 line (omega (arith, block.to_end)) out)
    inside (full none_free) e = let same : m ≡ m' = cc in rw (← same) refl

-- `mark_allocated` does not check its frames: marking a frame past the last of the array, if its
-- bit was clear there, writes a line past the array.
pub mark_allocated-outside :
    (m : BitmapMemoryManager) (f : FrameId)
    → frame_count ≤ f
    → f < 2 ^ 64
    → get_bit m f ≡ false
    → (line : ℕ) × (map_lines ≤ line) × ((mark_allocated m f 1).alloc_map line ≢ m.alloc_map line)
mark_allocated-outside m f past small clear = (
  f / 64,
  omega arith,
  λ e. ground (
    arith,
    get_bit-mark_allocated m f 1 f (omega arith),
    get_bit-line (mark_allocated m f 1) m f e,
  ),
)
