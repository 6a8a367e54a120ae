-- ===== src/Loader/Tests.antt =====
-- A kernel of 40 bytes with two segments, a firmware whose calls succeed, and the theorems at these.
use os_jisaku.Loader.{
  Memory, MemoryLib, ProgramHeader, calc_load_address_range, copy_load_segments, num_pages,
}
use os_jisaku.Loader.Kernel.{
  Firmware, MemoryMap, entered, get_memory_map, load_kernel, load_u64, new_memory_map,
}
use os_jisaku.Loader.Kernel.Entry.{Boots, InMemory, load_kernel-boots}
use os_jisaku.Loader.Kernel.Halts.{entered-succeeded}
use os_jisaku.Loader.Range.{AllWithin, calc_load_address_range-hull}
use os_jisaku.Loader.Segments.{AllFit, IsMemoryLib, OutsideAll}
use os_jisaku.Loader.Segments.Loads.{copy_load_segments-loads}
use os_jisaku.Prelude.{
  List, [], arith, false, get_elem?, if◌then◌else◌, inl, leb, le→leb, ltb, lt→ltb, refl, some, true,
  ℕ, ◌&&◌, ◌*◌, ◌+◌, ◌-◌, ◌<◌, ◌==◌, ◌↔◌, ◌∷◌, ◌≡◌, ◌≤◌,
}

abbrev move_lib : MemoryLib
move_lib = record {
  copy_mem = λ m to from n a. if leb to a && ltb a (to + n) then m (from + (a - to)) else m a;
  set_mem = λ m to n v a. if leb to a && ltb a (to + n) then v else m a;
}

move_lib-copied :
    (m : Memory) (to from n i : ℕ) → i < n → move_lib.copy_mem m to from n (to + i) ≡ m (from + i)
move_lib-copied m to from n i h =
    let e : to + i - to ≡ i = omega arith in
    rw (le→leb to (to + i) (omega arith), lt→ltb (to + i) (to + n) (omega arith), e)

move_lib-IsMemoryLib : IsMemoryLib move_lib
move_lib-IsMemoryLib = record {
  copied = move_lib-copied;
  not_copied = λ m to from n a far. ground arith;
  filled = λ m to n v i h. ground arith;
  not_filled = λ m to n v a far. ground arith;
}

abbrev text : ProgramHeader
text = record { is_load = true; p_offset = 0; p_vaddr = 0x100000; p_filesz = 36; p_memsz = 36 }

abbrev note : ProgramHeader
note = record { is_load = false; p_offset = 0; p_vaddr = 0; p_filesz = 8; p_memsz = 8 }

abbrev bss : ProgramHeader
bss = record { is_load = true; p_offset = 36; p_vaddr = 0x101000; p_filesz = 4; p_memsz = 16 }

abbrev headers : List ProgramHeader
headers = text ∷ note ∷ bss ∷ []

abbrev kernel_file : Memory
kernel_file a = a + 3

-- The pool is at 0x2000.
abbrev pool : ℕ
pool = 0x2000

abbrev with_file : Memory
with_file a = if leb pool a && ltb a (pool + 40) then kernel_file (a - pool) else 0

abbrev firmware : Firmware
firmware = record {
  lib = move_lib;
  open_kernel = true;
  file_size = some 40;
  allocate_pool = λ size. some pool;
  read = λ size buffer m. some with_file;
  program_headers = λ at m. headers;
  allocate_pages = λ first pages. true;
  free_pool = λ buffer m. some m;
  firmware_memory_map = λ size. some (480, 7);
  exit_boot_services = λ key. key == 7;
}

abbrev got_map : MemoryMap
got_map = record { buffer_size = 4096 * 4; has_buffer = true; map_size = 480; map_key = 7 }

headers_fit : AllFit pool 40 headers
headers_fit = (
  λ load. (
    record {
      filesz = omega arith;
      ends = omega arith;
      in_file = omega arith;
      apart = inl (omega arith);
    },
    ((λ load. cc), ((λ load. inl (omega arith)), tt)),
  ),
  (
    (λ load. cc),
    (
      (λ load. (
        record {
          filesz = omega arith;
          ends = omega arith;
          in_file = omega arith;
          apart = inl (omega arith);
        },
        tt,
      )),
      tt,
    ),
  ),
)

abbrev placed_kernel : Memory
placed_kernel = copy_load_segments move_lib pool headers with_file

with_file-kernel_file : (i : ℕ) → i < 40 → with_file (pool + i) ≡ kernel_file i
with_file-kernel_file i h =
    let e : pool + i - pool ≡ i = omega arith in
    rw (le→leb pool (pool + i) (omega arith), lt→ltb (pool + i) (pool + 40) (omega arith), e)

boots : Boots firmware (λ a. 0) kernel_file
unfolding get_memory_map
boots = record {
  lib = move_lib-IsMemoryLib;
  opened = refl;
  size = 40;
  has_size = refl;
  buffer = pool;
  has_buffer = refl;
  room = omega arith;
  read = with_file;
  has_read = refl;
  is_file = with_file-kernel_file;
  fit = headers_fit;
  pages = refl;
  freed = placed_kernel;
  has_freed = refl;
  keeps = λ a far. refl;
  map = got_map;
  has_map = refl;
  exits = refl;
}

lowest : 0x100000 ≡ (calc_load_address_range headers).0
unfolding calc_load_address_range
lowest = refl

load_kernel-boots_example :
    (load_kernel firmware (λ a. 0) ≡ entered (load_u64 kernel_file 24) placed_kernel got_map)
    × InMemory headers kernel_file placed_kernel
unfolding boots
load_kernel-boots_example =
    load_kernel-boots firmware (λ a. 0) kernel_file boots 0 text refl refl refl (omega arith) lowest

copy_load_segments-loads_example :
    ((n i : ℕ) (phdr : ProgramHeader)
      → get_elem? headers n ≡ some phdr
      → phdr.is_load ≡ true
      → (i < phdr.p_filesz
          → placed_kernel (phdr.p_vaddr + i) ≡ with_file (pool + phdr.p_offset + i))
        × (phdr.p_filesz ≤ i → i < phdr.p_memsz → placed_kernel (phdr.p_vaddr + i) ≡ 0))
    × ((a : ℕ) → OutsideAll headers a → placed_kernel a ≡ with_file a)
copy_load_segments-loads_example =
    copy_load_segments-loads move_lib move_lib-IsMemoryLib pool 40 (omega arith) headers with_file
      headers_fit

calc_load_address_range-hull_example : AllWithin 0x100000 0x101010 headers ↔ (
    (0x100000 ≤ (calc_load_address_range headers).0)
    × ((calc_load_address_range headers).1 ≤ 0x101010))
calc_load_address_range-hull_example =
    calc_load_address_range-hull headers 0x100000 0x101010
      ((λ load. omega arith), ((λ load. omega arith), ((λ load. omega arith), tt))) (omega arith)

entered-succeeded_example :
    (firmware.open_kernel ≡ true)
    × (size : ℕ) × (firmware.file_size ≡ some size)
    × (buffer : ℕ) × (firmware.allocate_pool size ≡ some buffer)
    × (read : Memory) × (firmware.read size buffer (λ a. 0) ≡ some read)
    × (let (first, last) = calc_load_address_range (firmware.program_headers buffer read) in
        firmware.allocate_pages first (num_pages first last) ≡ true)
    × (firmware.free_pool buffer
          (copy_load_segments firmware.lib buffer (firmware.program_headers buffer read) read)
        ≡ some placed_kernel)
    × (get_memory_map firmware new_memory_map ≡ some got_map)
    × (firmware.exit_boot_services got_map.map_key ≡ true)
unfolding boots
entered-succeeded_example =
    entered-succeeded firmware (λ a. 0) (load_u64 kernel_file 24) placed_kernel got_map
      (load_kernel-boots firmware (λ a. 0) kernel_file boots 0 text refl refl refl (omega arith)
        lowest).0
