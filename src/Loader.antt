-- ===== src/Loader.antt =====
-- MikanLoaderPkg/LoadKernel.c: how the boot loader brings the kernel into memory and enters it.
-- The firmware, its `CopyMem` and `SetMem`, and the layout of `elf.h` are parameters.
pub mod Range
pub mod Segments
pub mod Kernel
mod Tests
use os_jisaku.Prelude.{Bool, List, [], if◌then◌else◌, max, min, ℕ, ◌%◌, ◌+◌, ◌-◌, ◌/◌, ◌^◌, ◌∷◌}

-- Memory, by address.
abbrev pub Memory : Type 0
Memory = ℕ → ℕ

abbrev pub u64_mod : ℕ
u64_mod = 2 ^ 64

-- The fields of `Elf64_Phdr` that the loader reads; `is_load` is `p_type == PT_LOAD`.
pub record ProgramHeader : Type 0 where
  pub is_load : Bool
  pub p_offset : ℕ
  pub p_vaddr : ℕ
  pub p_filesz : ℕ
  pub p_memsz : ℕ

-- `CopyMem(to, from, n)` and `SetMem(to, n, value)`.
pub record MemoryLib : Type 0 where
  pub copy_mem : Memory → ℕ → ℕ → ℕ → Memory
  pub set_mem : Memory → ℕ → ℕ → ℕ → Memory

-- The loop of `CalcLoadAddressRange`, with `first` and `last` so far.
unfoldable pub range_from : List ProgramHeader → ℕ × ℕ → ℕ × ℕ
range_from [] range = range
range_from (phdr ∷ phdrs) (first, last) = range_from phdrs (
    if phdr.is_load
    then (min first phdr.p_vaddr, max last ((phdr.p_vaddr + phdr.p_memsz) % u64_mod))
    else (first, last))

unfoldable pub calc_load_address_range : List ProgramHeader → ℕ × ℕ
unfolding range_from
calc_load_address_range phdrs = range_from phdrs (u64_mod - 1, 0)

-- `num_pages` of `LoadKernel`.
unfoldable pub num_pages : ℕ → ℕ → ℕ
num_pages first last = (last + u64_mod - first + 0xfff) % u64_mod / 0x1000

module _ (lib : MemoryLib) where
  -- The body of the loop of `CopyLoadSegments`; `remain_bytes` is a difference of `UINT64`s.
  unfoldable pub copy_segment : ℕ → ProgramHeader → Memory → Memory
  copy_segment ehdr phdr memory =
      if phdr.is_load
      then (let copied =
            lib.copy_mem memory phdr.p_vaddr ((ehdr + phdr.p_offset) % u64_mod) phdr.p_filesz in
          let remain_bytes = (phdr.p_memsz + u64_mod - phdr.p_filesz) % u64_mod in
          lib.set_mem copied ((phdr.p_vaddr + phdr.p_filesz) % u64_mod) remain_bytes 0)
      else memory

  unfoldable pub copy_load_segments : ℕ → List ProgramHeader → Memory → Memory
  unfolding copy_segment
  copy_load_segments ehdr [] memory = memory
  copy_load_segments ehdr (phdr ∷ phdrs) memory =
      copy_load_segments ehdr phdrs (copy_segment ehdr phdr memory)
