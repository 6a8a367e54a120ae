-- ===== src/Usb/Pool.antt =====
-- kernel/usb/memory.cpp and kernel/usb/interface/usb/memory.hpp: the driver's memory, a pointer that moves
-- up in one array.
pub mod Placement
use os_jisaku.Prelude.{
  Option, bit_and, if◌then◌else◌, ltb, none, some, ℕ, ◌%◌, ◌&&◌, ◌*◌, ◌+◌, ◌-◌, ◌^◌,
}

-- `Ceil`.
unfoldable pub ceil : ℕ → ℕ → ℕ
ceil value alignment = bit_and ((value + alignment - 1) % 2 ^ 64) (2 ^ 64 - alignment)

abbrev pub k_memory_pool_size : ℕ
k_memory_pool_size = 4096 * 32

-- Where a block of `size` bytes starts.
unfoldable pub placed : ℕ → ℕ → ℕ → ℕ → ℕ
placed size alignment boundary alloc_ptr =
    let aligned = if ltb 0 alignment then ceil alloc_ptr alignment else alloc_ptr in
    let next_boundary = ceil aligned boundary in
    if ltb 0 boundary && ltb next_boundary ((aligned + size) % 2 ^ 64)
    then next_boundary
    else aligned

-- `AllocMem`: the block, unless it is the null pointer, and `alloc_ptr`. The array is at `memory_pool`.
unfoldable pub alloc_mem : ℕ → ℕ → ℕ → ℕ → ℕ → Option ℕ × ℕ
alloc_mem memory_pool size alignment boundary alloc_ptr =
    let p = placed size alignment boundary alloc_ptr in
    if ltb (memory_pool + k_memory_pool_size) ((p + size) % 2 ^ 64)
    then (none, p)
    else (some p, (p + size) % 2 ^ 64)

-- `AllocArray`.
abbrev pub alloc_array : ℕ → ℕ → ℕ → ℕ → ℕ → ℕ → Option ℕ × ℕ
alloc_array memory_pool size_of num_obj alignment boundary alloc_ptr =
    alloc_mem memory_pool (size_of * num_obj) alignment boundary alloc_ptr
