-- ===== src/Loader/Segments/Loads.antt =====
-- MikanLoaderPkg/LoadKernel.c: what `CopyLoadSegments` leaves in memory.
use mathlib.Core.Path.{subst}
use os_jisaku.Graphics.Layers.Redraw.{q}
use os_jisaku.Loader.{Memory, MemoryLib, ProgramHeader, copy_load_segments, copy_segment, u64_mod}
use os_jisaku.Loader.Segments.{
  AllFit, ApartFromAll, Fits, IsMemoryLib, OutsideAll, file-Outside, Outside-one, segment-file,
  segment-Outside, segment-zero, segments-outside,
}
use os_jisaku.Prelude.{
  List, [], arith, get_elem?, some, some_inj, suc, true, zero, ℕ, ◌+◌, ◌<◌, ◌∙◌, ◌∷◌, ◌≡◌, ◌≤◌,
}

module _ (lib : MemoryLib) (laws : IsMemoryLib lib) (ehdr size : ℕ)
    (room : ehdr + size < u64_mod) where
  -- A byte of a segment lies outside the segments that are apart from it.
  outside_rest :
      (phdr : ProgramHeader) (phdrs : List ProgramHeader) (i : ℕ)
      → i < phdr.p_memsz
      → ApartFromAll phdr phdrs
      → OutsideAll phdrs (phdr.p_vaddr + i)
  outside_rest phdr [] i h apart = tt
  outside_rest phdr (q ∷ qs) i h (apart, rest) =
      (λ load. Outside-one phdr q i h (apart load), outside_rest phdr qs i h rest)

  -- The file's bytes stay while segments are copied.
  file_kept :
      (phdr : ProgramHeader) (m : Memory) (j : ℕ)
      → j < size
      → (phdr.is_load ≡ true → Fits ehdr size phdr)
      → copy_segment lib ehdr phdr m (ehdr + j) ≡ m (ehdr + j)
  file_kept phdr m j h fit =
      segment-Outside lib laws ehdr size room phdr m (ehdr + j)
        (λ load. (fit load, file-Outside phdr j h (fit load)))

  -- The segment of a list at a place fits.
  pub Fits-at :
      (phdrs : List ProgramHeader) (n : ℕ) (phdr : ProgramHeader)
      → AllFit ehdr size phdrs
      → get_elem? phdrs n ≡ some phdr
      → phdr.is_load ≡ true
      → Fits ehdr size phdr
  Fits-at [] n phdr fits e load = cc
  Fits-at (q ∷ qs) zero phdr (fit, fits) e load =
      let same = some_inj e in subst (Fits ehdr size) same (fit (rw same load)).0
  Fits-at (q ∷ qs) (suc n) phdr (fit, fits) e load = Fits-at qs n phdr fits e load

  in_file_kept :
      (q : ProgramHeader) (qs : List ProgramHeader) (m : Memory) (n : ℕ) (phdr : ProgramHeader)
      (i : ℕ)
      → (q.is_load ≡ true → Fits ehdr size q × ApartFromAll q qs)
      → AllFit ehdr size qs
      → get_elem? qs n ≡ some phdr
      → phdr.is_load ≡ true
      → i < phdr.p_filesz
      → copy_segment lib ehdr q m (ehdr + phdr.p_offset + i) ≡ m (ehdr + phdr.p_offset + i)
  in_file_kept q qs m n phdr i fit fits e load h =
      let ok = Fits-at qs n phdr fits e load in
      let at_file : ehdr + phdr.p_offset + i ≡ ehdr + (phdr.p_offset + i) = omega arith in
      rw at_file
        (file_kept q m (phdr.p_offset + i) (omega (arith, ok.in_file)) (λ load'. (fit load').0))

  segment_loaded :
      (phdrs : List ProgramHeader) (m : Memory) (n : ℕ) (phdr : ProgramHeader) (i : ℕ)
      → AllFit ehdr size phdrs
      → get_elem? phdrs n ≡ some phdr
      → phdr.is_load ≡ true
      → (i < phdr.p_filesz
          → copy_load_segments lib ehdr phdrs m (phdr.p_vaddr + i) ≡ m (ehdr + phdr.p_offset + i))
        × (phdr.p_filesz ≤ i
            → i < phdr.p_memsz
            → copy_load_segments lib ehdr phdrs m (phdr.p_vaddr + i) ≡ 0)
  unfolding copy_load_segments
  segment_loaded [] m n phdr i fits e load = cc
  segment_loaded (q ∷ qs) m zero phdr i (fit, fits) e load =
      let same = some_inj e in
      let (ok, apart) = fit (rw same load) in
      subst
        (λ p.
          (i < p.p_filesz
            → copy_load_segments lib ehdr qs (copy_segment lib ehdr q m) (p.p_vaddr + i)
              ≡ m (ehdr + p.p_offset + i))
          × (p.p_filesz ≤ i
              → i < p.p_memsz
              → copy_load_segments lib ehdr qs (copy_segment lib ehdr q m) (p.p_vaddr + i) ≡ 0))
        same
        (
          λ h.
              segments-outside lib laws ehdr size room qs (copy_segment lib ehdr q m)
                (q.p_vaddr + i) fits (outside_rest q qs i (omega (arith, ok.filesz)) apart)
              ∙ segment-file lib laws ehdr size room q m i (rw same load) ok h,
          λ h k.
              segments-outside lib laws ehdr size room qs (copy_segment lib ehdr q m)
                (q.p_vaddr + i) fits (outside_rest q qs i k apart)
              ∙ segment-zero lib laws ehdr size room q m i (rw same load) ok h k,
        )
  segment_loaded (q ∷ qs) m (suc n) phdr i (fit, fits) e load =
      let rest = segment_loaded qs (copy_segment lib ehdr q m) n phdr i fits e load in
      (λ h. rest.0 h ∙ in_file_kept q qs m n phdr i fit fits e load h, rest.1)

  -- When every loaded segment fits, the loaded segments have places of their own, and the file
  -- is in memory from `ehdr` on: `copy_load_segments` leaves each loaded segment's bytes of the
  -- file at its address, zeros behind them up to its size in memory, and memory outside all
  -- loaded segments as it was.
  pub copy_load_segments-loads :
      (phdrs : List ProgramHeader) (m : Memory)
      → AllFit ehdr size phdrs
      → ((n i : ℕ) (phdr : ProgramHeader)
          → get_elem? phdrs n ≡ some phdr
          → phdr.is_load ≡ true
          → (i < phdr.p_filesz
              → copy_load_segments lib ehdr phdrs m (phdr.p_vaddr + i)
                ≡ m (ehdr + phdr.p_offset + i))
            × (phdr.p_filesz ≤ i
                → i < phdr.p_memsz
                → copy_load_segments lib ehdr phdrs m (phdr.p_vaddr + i) ≡ 0))
        × ((a : ℕ) → OutsideAll phdrs a → copy_load_segments lib ehdr phdrs m a ≡ m a)
  copy_load_segments-loads phdrs m fits = (
    λ n i phdr e load. segment_loaded phdrs m n phdr i fits e load,
    λ a out. segments-outside lib laws ehdr size room phdrs m a fits out,
  )
