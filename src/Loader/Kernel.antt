-- ===== src/Loader/Kernel.antt =====
-- MikanLoaderPkg/LoadKernel.c and Common.c: `LoadKernel`, from the opening of the file to the jump.
-- A call of the firmware that gives a value on success and an error status otherwise is an `Option`.
pub mod Entry
pub mod Halts
use os_jisaku.Graphics.Frame.Whole.{buffer_size}
use os_jisaku.Graphics.Geometry.{size}
use os_jisaku.Loader.{
  Memory, MemoryLib, ProgramHeader, calc_load_address_range, copy_load_segments, num_pages, u64_mod,
}
use os_jisaku.Prelude.{
  Bool, List, Option, if◌then◌else◌, map, none, some, true, ℕ, ◌%◌, ◌*◌, ◌+◌, ◌^◌,
}
use os_jisaku.Usb.Ring.Reader.{read}

-- What the loader asks of the firmware.
pub record Firmware : Type 0 where
  pub lib : MemoryLib
  -- `Open` of `\kernel.elf`, and `FileSize` of what `GetInfo` gives.
  pub open_kernel : Bool
  pub file_size : Option ℕ
  pub allocate_pool : ℕ → Option ℕ
  -- `Read` of so many bytes to an address.
  pub read : ℕ → ℕ → Memory → Option Memory
  -- The program headers that `elf.h` sees at an address.
  pub program_headers : ℕ → Memory → List ProgramHeader
  pub allocate_pages : ℕ → ℕ → Bool
  pub free_pool : ℕ → Memory → Option Memory
  -- `gBS->GetMemoryMap` for a buffer of a size: the map's size and key.
  pub firmware_memory_map : ℕ → Option (ℕ × ℕ)
  pub exit_boot_services : ℕ → Bool

-- `MemoryMap`, without the descriptors that the buffer holds; `has_buffer` is `buffer != NULL`.
pub record MemoryMap : Type 0 where
  pub buffer_size : ℕ
  pub has_buffer : Bool
  pub map_size : ℕ
  pub map_key : ℕ

-- Why the loader halts.
pub data Failure : Type 0 where
  no_open no_file_info no_pool no_read no_pages no_free no_memory_map no_exit : Failure

-- `Halt`, or the jump to an address with memory as it is then, and the memory map that it gets.
pub data Outcome : Type 0 where
  halted : Failure → Outcome
  entered : ℕ → Memory → MemoryMap → Outcome

-- A step that halts on an error status.
abbrev pub or_halt {ℓ} : {A : Type ℓ} → Failure → Option A → (A → Outcome) → Outcome
or_halt failure none next = halted failure
or_halt failure (some a) next = next a

abbrev pub unless_halt : Failure → Bool → Outcome → Outcome
unless_halt failure done next = if done then next else halted failure

-- `GetMemoryMap`: an error without a buffer.
unfoldable pub get_memory_map : Firmware → MemoryMap → Option MemoryMap
get_memory_map fw map =
    if map.has_buffer
    then (elim (fw.firmware_memory_map map.buffer_size) [
      | none ↦ none
      | some (size, key) ↦ some (record map { map_size = size; map_key = key })
    ])
    else none

-- `*(UINT64*)address`, least byte first.
unfoldable pub load_u64 : Memory → ℕ → ℕ
load_u64 m a =
    m a
    + 2 ^ 8 * m (a + 1)
    + 2 ^ 16 * m (a + 2)
    + 2 ^ 24 * m (a + 3)
    + 2 ^ 32 * m (a + 4)
    + 2 ^ 40 * m (a + 5)
    + 2 ^ 48 * m (a + 6)
    + 2 ^ 56 * m (a + 7)

abbrev pub new_memory_map : MemoryMap
new_memory_map = record { buffer_size = 4096 * 4; has_buffer = true; map_size = 0; map_key = 0 }

-- `ExitBootServices` and the jump.
unfoldable pub enter_kernel : Firmware → ℕ → Memory → Outcome
unfolding get_memory_map load_u64
enter_kernel fw first memory = or_halt no_memory_map (get_memory_map fw new_memory_map) λ map.
    unless_halt no_exit (fw.exit_boot_services map.map_key)
      (entered (load_u64 memory ((first + 24) % u64_mod)) memory map)

-- From the buffer that holds the file on.
unfoldable pub place_kernel : Firmware → ℕ → Memory → Outcome
unfolding calc_load_address_range num_pages copy_load_segments enter_kernel
place_kernel fw buffer memory =
    let phdrs = fw.program_headers buffer memory in
    let (first, last) = calc_load_address_range phdrs in
    unless_halt no_pages (fw.allocate_pages first (num_pages first last)) (
      or_halt no_free (fw.free_pool buffer (copy_load_segments fw.lib buffer phdrs memory))
        λ freed. enter_kernel fw first freed)

-- `LoadKernelToTempMemory` and what follows.
unfoldable pub load_kernel : Firmware → Memory → Outcome
unfolding place_kernel
load_kernel fw memory = unless_halt no_open fw.open_kernel (
    or_halt no_file_info fw.file_size λ size.
      or_halt no_pool (fw.allocate_pool size)
        λ buffer. or_halt no_read (fw.read size buffer memory) λ read. place_kernel fw buffer read)
