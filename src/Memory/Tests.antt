-- ===== src/Memory/Tests.antt =====
-- Runs of the frame allocator and the heap on small maps, and the theorems at these inputs.
use os_jisaku.Errors.{no_enough_memory, success}
use os_jisaku.Memory.{
  BitmapMemoryManager, FrameId, allocate, free, get_bit, map_lines, mark_allocated, new, null_frame,
}
use os_jisaku.Memory.Allocate.{Allocates, allocate-Allocates, allocate-disjoint, free-allocate}
use os_jisaku.Memory.Bounds.{allocate-inside}
use os_jisaku.Memory.Bitmap.{get_bit-free, get_bit-mark_allocated}
use os_jisaku.Memory.Heap.{
  Blocks, Heap, IsHeap, no_errno, sbrk, sbrk_calls, sbrk_calls-Blocks, sbrk_failed,
}
use os_jisaku.Memory.Init.{MemoryDescriptor, MemoryMap, initialize_memory_manager}
use os_jisaku.Memory.Init.Visits.{IsMap, in_reserved, initialize_memory_manager-reserved}
use os_jisaku.Prelude.{
  [], arith, false, if◌then◌else◌, refl, some, true, ℕ, ◌*◌, ◌+◌, ◌<◌, ◌==◌, ◌∷◌, ◌≡◌, ◌≤◌, ◌⊎◌,
}
use os_jisaku.Prelude.Int.{negsuc, pos}

-- Frames 1 to 8, with frame 3 in use.
abbrev small : BitmapMemoryManager
small = record { alloc_map = λ line. if line == 0 then 8 else 0; range_begin = 1; range_end = 9 }

allocate_two :
    allocate small 2 ≡ some (record { value = 1; error = success }, mark_allocated small 1 2)
unfolding allocate
allocate_two = refl

allocate_four :
    allocate small 4 ≡ some (record { value = 4; error = success }, mark_allocated small 4 4)
unfolding allocate
allocate_four = refl

allocate_six :
    allocate small 6 ≡ some (record { value = null_frame; error = no_enough_memory }, small)
unfolding allocate
allocate_six = refl

get_bit-mark_allocated_example : get_bit (mark_allocated small 62 4) 65 ≡ true
get_bit-mark_allocated_example = get_bit-mark_allocated small 62 4 65 (omega arith)

get_bit-free_example : ((free small 3 1).0 ≡ success) × (get_bit (free small 3 1).1 3 ≡ false)
get_bit-free_example = get_bit-free small 3 1 3 (omega arith)

allocate-Allocates_example : Allocates small 4 (allocate small 4)
allocate-Allocates_example = allocate-Allocates small 4 (omega arith) (omega arith) (omega arith)

free-allocate_example : get_bit (free (mark_allocated small 4 4) 4 4).1 5 ≡ get_bit small 5
unfolding allocate
free-allocate_example =
    free-allocate small 4 (omega arith) (omega arith) (omega arith)
      (record { value = 4; error = success }) (mark_allocated small 4 4) refl refl 5

allocate-disjoint_example : (1 + 2 ≤ 4) ⊎ (4 + 2 ≤ 1)
unfolding allocate
allocate-disjoint_example =
    allocate-disjoint small 2 (omega arith) (omega arith) (omega arith) 2
      (record { value = 1; error = success }) (record { value = 4; error = success })
      (mark_allocated small 1 2) (mark_allocated (mark_allocated small 1 2) 4 2) (omega arith) refl
      refl refl refl

allocate-inside_example : (mark_allocated small 4 4).alloc_map map_lines ≡ 0
unfolding allocate
allocate-inside_example =
    allocate-inside small 4 (record { value = 4; error = success }) (mark_allocated small 4 4)
      map_lines (omega arith) (omega arith) (omega arith) refl (omega arith)

-- Two descriptors of 40 bytes: eight available pages from 0x1000, and three pages of another kind.
abbrev firmware : ℕ → MemoryDescriptor
firmware address =
    if address == 0x8000
    then record { memory_type = 7; physical_start = 0x1000; number_of_pages = 8 }
    else record { memory_type = 0; physical_start = 0x9000; number_of_pages = 3 }

abbrev two_entries : MemoryMap
two_entries = record { buffer = 0x8000; map_size = 80; descriptor_size = 40 }

firmware-IsMap : IsMap firmware two_entries
firmware-IsMap = record {
  starts = λ address. ground arith;
  sized = omega arith;
  no_wrap = omega arith;
  covered = λ k seen. ground arith;
}

initialize_memory_manager-reserved_example :
    (m' : BitmapMemoryManager) × (initialize_memory_manager firmware two_entries new ≡ some m')
    × (m'.range_begin ≡ 1)
    × ((f : FrameId) → get_bit new f ≡ true → get_bit m' f ≡ true)
    × ((k : ℕ) (f : FrameId)
        → 0x8000 + k * 40 < 0x8000 + 80
        → in_reserved (firmware (0x8000 + k * 40)) f ≡ true
        → get_bit m' f ≡ true)
    × ((line : ℕ) → map_lines ≤ line → m'.alloc_map line ≡ new.alloc_map line)
initialize_memory_manager-reserved_example =
    initialize_memory_manager-reserved firmware two_entries firmware-IsMap new

abbrev heap : Heap
heap = record { program_break = 0x1000; program_break_end = 0x3000; errno = no_errno }

sbrk_runs :
    (sbrk (pos 0x100) heap ≡ (0x1000, record heap { program_break = 0x1100 }))
    × ((sbrk (pos 0x2000) heap).0 ≡ sbrk_failed)
    × ((sbrk (negsuc 15) heap).1.program_break ≡ 0xff0)
unfolding sbrk
sbrk_runs = (refl, refl, refl)

heap-IsHeap : IsHeap heap
heap-IsHeap = omega arith

sbrk_calls-Blocks_example : Blocks 0x1000 0x3000 (sbrk_calls (16 ∷ 0x2000 ∷ 32 ∷ []) heap)
sbrk_calls-Blocks_example = sbrk_calls-Blocks (16 ∷ 0x2000 ∷ 32 ∷ []) heap (omega arith) heap-IsHeap
