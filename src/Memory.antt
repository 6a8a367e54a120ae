-- ===== src/Memory.antt =====
-- kernel/memory_manager.hpp and kernel/memory_manager.cpp: the frame allocator. `alloc_map_` is a
-- function from the line index to the 64-bit line; an access past the array's `map_lines` lines is
-- undefined in the source, and `Memory.Bounds` is about where it cannot happen.
pub mod Bitmap
pub mod Allocate
pub mod Bounds
pub mod Init
pub mod Heap
mod Tests
use os_jisaku.Prelude.{
  ℕ, zero, suc, ◌+◌, ◌-◌, ◌*◌, ◌/◌, ◌%◌, ◌^◌, bit_and, bit_or, Bool, true, false, not, leb, ◌==◌,
  if◌then◌else◌, Option, none, some,
}
use os_jisaku.Errors.{Code, WithError, success, no_enough_memory}

-- `4_kib`, and the sizes of `BitmapMemoryManager`.
abbrev pub bytes_per_frame : ℕ
bytes_per_frame = 4 * 1024

abbrev pub max_physical_memory_bytes : ℕ
max_physical_memory_bytes = 128 * 1024 * 1024 * 1024

abbrev pub frame_count : ℕ
frame_count = max_physical_memory_bytes / bytes_per_frame

abbrev pub bits_per_map_line : ℕ
bits_per_map_line = 64

abbrev pub map_lines : ℕ
map_lines = frame_count / bits_per_map_line

-- `FrameID::id`, a `std::size_t`.
abbrev pub FrameId : Type 0
FrameId = ℕ

-- `null_frame`, the largest `std::size_t`.
abbrev pub null_frame : FrameId
null_frame = 2 ^ 64 - 1

-- `std::size_t` addition.
abbrev pub add_size : ℕ → ℕ → ℕ
add_size a b = (a + b) % 2 ^ 64

pub record BitmapMemoryManager : Type 0 where
  pub alloc_map : ℕ → ℕ
  pub range_begin : FrameId
  pub range_end : FrameId

-- The constructor.
unfoldable pub new : BitmapMemoryManager
new = record { alloc_map = λ line. 0; range_begin = 0; range_end = frame_count }

pub set_memory_range : BitmapMemoryManager → FrameId → FrameId → BitmapMemoryManager
set_memory_range m b e = record m { range_begin = b; range_end = e }

unfoldable pub get_bit : BitmapMemoryManager → FrameId → Bool
get_bit m frame =
    let line_index = frame / bits_per_map_line in
    let bit_index = frame % bits_per_map_line in
    not (bit_and (m.alloc_map line_index) (2 ^ bit_index) == 0)

-- An assignment to one line.
abbrev pub set_line : (ℕ → ℕ) → ℕ → ℕ → ℕ → ℕ
set_line lines i v j = if j == i then v else lines j

unfoldable pub set_bit : BitmapMemoryManager → FrameId → Bool → BitmapMemoryManager
set_bit m frame allocated =
    let line_index = frame / bits_per_map_line in
    let bit_index = frame % bits_per_map_line in
    let line = m.alloc_map line_index in
    if allocated
    then record m { alloc_map = set_line m.alloc_map line_index (bit_or line (2 ^ bit_index)) }
    else record m {
      alloc_map = set_line m.alloc_map line_index (bit_and line (2 ^ 64 - 1 - 2 ^ bit_index));
    }

-- The loop of `mark_allocated` and of `free`, at round `i` with `left` rounds to go.
pub set_bits : BitmapMemoryManager → FrameId → Bool → ℕ → ℕ → BitmapMemoryManager
set_bits m start allocated zero i = m
set_bits m start allocated (suc left) i =
    set_bits (set_bit m (add_size start i) allocated) start allocated left (i + 1)

unfoldable pub mark_allocated : BitmapMemoryManager → FrameId → ℕ → BitmapMemoryManager
unfolding set_bits set_bit
mark_allocated m start num_frames = set_bits m start true num_frames 0

unfoldable pub free : BitmapMemoryManager → FrameId → ℕ → Code × BitmapMemoryManager
unfolding set_bits set_bit
free m start num_frames = (success, set_bits m start false num_frames 0)

-- How the inner loop of `allocate` ends: past the range, at a frame in use, or with room.
pub data Scan : Type 0 where
  past_range : Scan
  in_use : ℕ → Scan
  fits : Scan

pub scan : BitmapMemoryManager → FrameId → ℕ → ℕ → Scan
unfolding get_bit
scan m start zero i = fits
scan m start (suc left) i =
    let rest = scan m start left (i + 1) in
    if leb m.range_end (add_size start i)
    then past_range
    else (if get_bit m (add_size start i) then in_use i else rest)

-- What `allocate` returns, with the manager that it leaves.
abbrev pub Allocation : Type 0
Allocation = WithError FrameId × BitmapMemoryManager

-- The outer loop; `none` is a loop that ran out of fuel.
pub allocate_from : BitmapMemoryManager → ℕ → ℕ → FrameId → Option Allocation
unfolding scan mark_allocated
allocate_from m num_frames zero start = none
allocate_from m num_frames (suc fuel) start = elim (scan m start num_frames 0) [
  | past_range ↦ some (record { value = null_frame; error = no_enough_memory }, m)
  | in_use i ↦ allocate_from m num_frames fuel (add_size start (i + 1))
  | fits ↦ some (record { value = start; error = success }, mark_allocated m start num_frames)
]

-- Each round moves the start up by one at least, and no round passes `range_end`.
unfoldable pub allocate : BitmapMemoryManager → ℕ → Option Allocation
unfolding allocate_from
allocate m num_frames = allocate_from m num_frames (m.range_end + 1) m.range_begin
