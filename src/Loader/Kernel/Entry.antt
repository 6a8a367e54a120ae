-- ===== src/Loader/Kernel/Entry.antt =====
-- MikanLoaderPkg/LoadKernel.c: when the kernel is entered, and with what in memory.
use native.Mathlib.Nat.{add-zero, mod-eq_of_lt}
use os_jisaku.Loader.{
  Memory, ProgramHeader, calc_load_address_range, copy_load_segments, num_pages, u64_mod,
}
use os_jisaku.Loader.Kernel.{
  Firmware, MemoryMap, enter_kernel, entered, get_memory_map, load_kernel, load_u64, new_memory_map,
  place_kernel,
}
use os_jisaku.Loader.Segments.{AllFit, Fits, IsMemoryLib}
use os_jisaku.Loader.Segments.Loads.{copy_load_segments-loads, Fits-at}
use os_jisaku.Prelude.{
  List, ap, arith, get_elem?, inl, inr, some, true, ℕ, ◌%◌, ◌+◌, ◌<◌, ◌∙◌, ◌≡◌, ◌≤◌, ◌⊎◌,
}

-- A firmware whose calls succeed, and a file whose segments fit. `file` holds the bytes of the kernel's file.
pub record Boots (fw : Firmware) (memory file : Memory) : Type 0 where
  pub lib : IsMemoryLib fw.lib
  pub opened : fw.open_kernel ≡ true
  pub size : ℕ
  pub has_size : fw.file_size ≡ some size
  pub buffer : ℕ
  pub has_buffer : fw.allocate_pool size ≡ some buffer
  pub room : buffer + size < u64_mod
  pub read : Memory
  pub has_read : fw.read size buffer memory ≡ some read
  pub is_file : (i : ℕ) → i < size → read (buffer + i) ≡ file i
  pub fit : AllFit buffer size (fw.program_headers buffer read)
  pub pages :
      let (first, last) = calc_load_address_range (fw.program_headers buffer read) in
      fw.allocate_pages first (num_pages first last) ≡ true
  pub freed : Memory
  pub has_freed :
      fw.free_pool buffer (copy_load_segments fw.lib buffer (fw.program_headers buffer read) read)
      ≡ some freed
  pub keeps :
      (a : ℕ)
      → (a < buffer) ⊎ (buffer + size ≤ a)
      → freed a ≡ copy_load_segments fw.lib buffer (fw.program_headers buffer read) read a
  pub map : MemoryMap
  pub has_map : get_memory_map fw new_memory_map ≡ some map
  pub exits : fw.exit_boot_services map.map_key ≡ true

-- The kernel is in memory: every loaded segment's bytes of the file, and zeros behind them.
abbrev pub InMemory : List ProgramHeader → Memory → Memory → Type 0
InMemory phdrs file m =
    (n i : ℕ) (phdr : ProgramHeader)
    → get_elem? phdrs n ≡ some phdr
    → phdr.is_load ≡ true
    → (i < phdr.p_filesz → m (phdr.p_vaddr + i) ≡ file (phdr.p_offset + i))
      × (phdr.p_filesz ≤ i → i < phdr.p_memsz → m (phdr.p_vaddr + i) ≡ 0)

-- A byte of a segment does not lie in the buffer.
off_buffer :
    {buffer size : ℕ} (phdr : ProgramHeader) (i : ℕ)
    → Fits buffer size phdr
    → i < phdr.p_memsz
    → (phdr.p_vaddr + i < buffer) ⊎ (buffer + size ≤ phdr.p_vaddr + i)
off_buffer phdr i fit h = elim fit.apart [ inl a ↦ inr (omega arith) | inr a ↦ inl (omega arith) ]

-- Two memories that agree on eight bytes hold the same number there.
load_u64-agree :
    (m k : Memory) (a c : ℕ)
    → ((i : ℕ) → i < 8 → m (a + i) ≡ k (c + i))
    → load_u64 m a ≡ load_u64 k c
unfolding load_u64
load_u64-agree m k a c h =
    let z : m a ≡ k c = rw (add-zero a, add-zero c) at (h 0 (omega arith)) in
    omega (
      arith,
      z,
      h 1 (omega arith),
      h 2 (omega arith),
      h 3 (omega arith),
      h 4 (omega arith),
      h 5 (omega arith),
      h 6 (omega arith),
      h 7 (omega arith),
    )

module _ (fw : Firmware) (memory file : Memory) (b : Boots fw memory file) where
  abbrev phdrs : List ProgramHeader
  phdrs = fw.program_headers b.buffer b.read

  abbrev first : ℕ
  first = (calc_load_address_range phdrs).0

  load_kernel-entered :
      load_kernel fw memory ≡ entered (load_u64 b.freed ((first + 24) % u64_mod)) b.freed b.map
  unfolding load_kernel place_kernel enter_kernel
  load_kernel-entered =
      rw (b.opened, b.has_size, b.has_buffer, b.has_read, b.pages, b.has_freed, b.has_map, b.exits)

  freed-InMemory : InMemory phdrs file b.freed
  freed-InMemory n i phdr e load =
      let fits = Fits-at fw.lib b.lib b.buffer b.size b.room phdrs n phdr b.fit e load in
      let loads =
        (copy_load_segments-loads fw.lib b.lib b.buffer b.size b.room phdrs b.read b.fit).0 n i phdr
          e load in
      (
        λ h.
            b.keeps (phdr.p_vaddr + i) (off_buffer phdr i fits (omega (arith, fits.filesz)))
            ∙ loads.0 h
            ∙ (let at_file : b.buffer + phdr.p_offset + i ≡ b.buffer + (phdr.p_offset + i) =
                  omega arith in
                rw at_file (b.is_file (phdr.p_offset + i) (omega (arith, fits.in_file)))),
        λ h k. b.keeps (phdr.p_vaddr + i) (off_buffer phdr i fits k) ∙ loads.1 h k,
      )

  -- When every call of the firmware succeeds, the segments fit, and the one that lies lowest in
  -- memory starts with the file's header: `load_kernel` jumps to the address that the header
  -- holds at its byte 24, with every loaded segment in memory.
  pub load_kernel-boots :
      (n : ℕ) (header : ProgramHeader)
      → get_elem? (fw.program_headers b.buffer b.read) n ≡ some header
      → header.is_load ≡ true
      → header.p_offset ≡ 0
      → 32 ≤ header.p_filesz
      → header.p_vaddr ≡ (calc_load_address_range (fw.program_headers b.buffer b.read)).0
      → (load_kernel fw memory ≡ entered (load_u64 file 24) b.freed b.map)
        × InMemory (fw.program_headers b.buffer b.read) file b.freed
  load_kernel-boots n header e load at_start long lowest =
      let fits = Fits-at fw.lib b.lib b.buffer b.size b.room phdrs n header b.fit e load in
      let wrap : (first + 24) % u64_mod ≡ header.p_vaddr + 24 =
        rw (← lowest) (mod-eq_of_lt (omega (arith, fits.ends, fits.filesz))) in
      let same = load_u64-agree b.freed file (header.p_vaddr + 24) 24 (λ i h.
        let l = (freed-InMemory n (24 + i) header e load).0 (omega arith) in
        let there : header.p_vaddr + 24 + i ≡ header.p_vaddr + (24 + i) = omega arith in
        let here : header.p_offset + (24 + i) ≡ 24 + i = omega arith in
        rw there (l ∙ ap file here)) in
      (
        load_kernel-entered ∙ ap (λ a. entered a b.freed b.map) (ap (load_u64 b.freed) wrap ∙ same),
        freed-InMemory,
      )
