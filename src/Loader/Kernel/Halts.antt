-- ===== src/Loader/Kernel/Halts.antt =====
-- MikanLoaderPkg/LoadKernel.c: the loader halts on every error.
use mathlib.Core.Path.{subst}
use os_jisaku.Graphics.Geometry.{size}
use os_jisaku.Loader.{Memory, calc_load_address_range, copy_load_segments, num_pages}
use os_jisaku.Loader.Kernel.{
  Failure, Firmware, MemoryMap, Outcome, enter_kernel, entered, get_memory_map, halted, load_kernel,
  new_memory_map, no_file_info, no_free, no_open, no_pages, no_pool, no_read, or_halt, place_kernel,
  unless_halt,
}
use os_jisaku.Prelude.{
  Bool, Bool-cases, Option, Option-cases, ap, false, inl, inr, map, none, refl, some, true, ℕ, ◌∙◌,
  ◌≡◌,
}
use os_jisaku.Usb.Ring.Reader.{read}

unless_halt-entered :
    (f : Failure) (done : Bool) (next : Outcome) {entry : ℕ} {m : Memory} {map : MemoryMap}
    → unless_halt f done next ≡ entered entry m map
    → (done ≡ true) × (next ≡ entered entry m map)
unless_halt-entered f true next h = (refl, h)
unless_halt-entered f false next h = cc

or_halt-entered {ℓ} :
    {A : Type ℓ} (f : Failure) (o : Option A) (next : A → Outcome) {entry : ℕ} {m : Memory}
    {map : MemoryMap}
    → or_halt f o next ≡ entered entry m map
    → (a : A) × (o ≡ some a) × (next a ≡ entered entry m map)
or_halt-entered f none next h = cc
or_halt-entered f (some a) next h = (a, refl, h)

memory_of : Outcome → Memory
memory_of (halted f) = λ a. 0
memory_of (entered e m map) = m

map_of : Outcome → MemoryMap
map_of (halted f) = new_memory_map
map_of (entered e m map) = map

enter_kernel-succeeded :
    (fw : Firmware) (first : ℕ) (memory : Memory) {entry : ℕ} {m : Memory} {map : MemoryMap}
    → enter_kernel fw first memory ≡ entered entry m map
    → (memory ≡ m)
      × (get_memory_map fw new_memory_map ≡ some map)
      × (fw.exit_boot_services map.map_key ≡ true)
unfolding enter_kernel memory_of map_of
enter_kernel-succeeded fw first memory h = elim (Option-cases (get_memory_map fw new_memory_map)) [
  | inl e ↦ cc (rw e at h)
  | inr (map', e) ↦ elim (Bool-cases (fw.exit_boot_services map'.map_key)) [
    | inr e' ↦ cc (rw (e, e') at h)
    | inl e' ↦
        let same = rw (e, e') at h in
        let m_same = ap memory_of same in
        let map_same = ap map_of same in
        (
          m_same,
          e ∙ ap some map_same,
          subst (λ t. fw.exit_boot_services t.map_key ≡ true) map_same e',
        )
  ]
]

place_kernel-succeeded :
    (fw : Firmware) (buffer : ℕ) (read : Memory) {entry : ℕ} {m : Memory} {map : MemoryMap}
    → place_kernel fw buffer read ≡ entered entry m map
    → (let (first, last) = calc_load_address_range (fw.program_headers buffer read) in
        fw.allocate_pages first (num_pages first last) ≡ true)
      × (fw.free_pool buffer
            (copy_load_segments fw.lib buffer (fw.program_headers buffer read) read)
          ≡ some m)
      × (get_memory_map fw new_memory_map ≡ some map)
      × (fw.exit_boot_services map.map_key ≡ true)
unfolding place_kernel
place_kernel-succeeded fw buffer read h =
    let phdrs = fw.program_headers buffer read in
    let first = (calc_load_address_range phdrs).0 in
    let last = (calc_load_address_range phdrs).1 in
    let placed = copy_load_segments fw.lib buffer phdrs read in
    let (pages, h5) =
      unless_halt-entered no_pages (fw.allocate_pages first (num_pages first last))
        (or_halt no_free (fw.free_pool buffer placed) (λ freed. enter_kernel fw first freed)) h in
    let (freed, hf, h6) =
      or_halt-entered no_free (fw.free_pool buffer placed) (λ freed. enter_kernel fw first freed)
        h5 in
    let (same, hm, exits) = enter_kernel-succeeded fw first freed h6 in
    (pages, hf ∙ ap some same, hm, exits)

-- The loader enters the kernel only after every call of the firmware has succeeded; after any
-- error status it halts.
pub entered-succeeded :
    (fw : Firmware) (memory : Memory) (entry : ℕ) (m : Memory) (map : MemoryMap)
    → load_kernel fw memory ≡ entered entry m map
    → (fw.open_kernel ≡ true)
      × (size : ℕ) × (fw.file_size ≡ some size)
      × (buffer : ℕ) × (fw.allocate_pool size ≡ some buffer)
      × (read : Memory) × (fw.read size buffer memory ≡ some read)
      × (let (first, last) = calc_load_address_range (fw.program_headers buffer read) in
          fw.allocate_pages first (num_pages first last) ≡ true)
      × (fw.free_pool buffer
            (copy_load_segments fw.lib buffer (fw.program_headers buffer read) read)
          ≡ some m)
      × (get_memory_map fw new_memory_map ≡ some map)
      × (fw.exit_boot_services map.map_key ≡ true)
unfolding load_kernel
entered-succeeded fw memory entry m map h =
    let from_read = λ (size : ℕ) (buffer : ℕ).
      or_halt no_read (fw.read size buffer memory) (λ read. place_kernel fw buffer read) in
    let from_pool = λ (size : ℕ). or_halt no_pool (fw.allocate_pool size) (from_read size) in
    let (opened, h1) =
      unless_halt-entered no_open fw.open_kernel (or_halt no_file_info fw.file_size from_pool) h in
    let (size, hs, h2) = or_halt-entered no_file_info fw.file_size from_pool h1 in
    let (buffer, hb, h3) = or_halt-entered no_pool (fw.allocate_pool size) (from_read size) h2 in
    let (read, hr, h4) =
      or_halt-entered no_read (fw.read size buffer memory) (λ read. place_kernel fw buffer read)
        h3 in
    let (pages, freed, got, exits) = place_kernel-succeeded fw buffer read h4 in
    (opened, size, hs, buffer, hb, read, hr, pages, freed, got, exits)
