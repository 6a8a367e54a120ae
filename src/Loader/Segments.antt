-- ===== src/Loader/Segments.antt =====
-- MikanLoaderPkg/LoadKernel.c: where segments lie, and what the copy of one of them leaves in memory.
pub mod Loads
use native.Mathlib.Nat.{mod-eq_of_lt}
use os_jisaku.Graphics.Geometry.{size}
use os_jisaku.Graphics.Layers.Redraw.{q}
use os_jisaku.Loader.{Memory, MemoryLib, ProgramHeader, copy_load_segments, copy_segment, u64_mod}
use os_jisaku.Prelude.{
  Bool-cases, List, [], arith, inl, inr, refl, true, ℕ, ◌%◌, ◌+◌, ◌-◌, ◌<◌, ◌∙◌, ◌∷◌, ◌≡◌, ◌≤◌, ◌⊎◌,
}

-- What the loader relies on of `CopyMem` and `SetMem`.
pub record IsMemoryLib (lib : MemoryLib) : Type 0 where
  pub copied :
      (m : Memory) (to from n i : ℕ) → i < n → lib.copy_mem m to from n (to + i) ≡ m (from + i)
  pub not_copied :
      (m : Memory) (to from n a : ℕ) → (a < to) ⊎ (to + n ≤ a) → lib.copy_mem m to from n a ≡ m a
  pub filled : (m : Memory) (to n v i : ℕ) → i < n → lib.set_mem m to n v (to + i) ≡ v
  pub not_filled :
      (m : Memory) (to n v a : ℕ) → (a < to) ⊎ (to + n ≤ a) → lib.set_mem m to n v a ≡ m a

-- The address lies outside the segment's place in memory.
abbrev pub Outside : ProgramHeader → ℕ → Type 0
Outside phdr a = (a < phdr.p_vaddr) ⊎ (phdr.p_vaddr + phdr.p_memsz ≤ a)

-- A segment that fits: no longer in the file than in memory, inside the file, and apart from the
-- buffer that holds the file.
pub record Fits (ehdr size : ℕ) (phdr : ProgramHeader) : Type 0 where
  pub filesz : phdr.p_filesz ≤ phdr.p_memsz
  pub ends : phdr.p_vaddr + phdr.p_memsz < u64_mod
  pub in_file : phdr.p_offset + phdr.p_filesz ≤ size
  pub apart : (ehdr + size ≤ phdr.p_vaddr) ⊎ (phdr.p_vaddr + phdr.p_memsz ≤ ehdr)

-- Two segments with places of their own.
abbrev pub Apart : ProgramHeader → ProgramHeader → Type 0
Apart p q = (p.p_vaddr + p.p_memsz ≤ q.p_vaddr) ⊎ (q.p_vaddr + q.p_memsz ≤ p.p_vaddr)

abbrev pub ApartFromAll : ProgramHeader → List ProgramHeader → Type 0
ApartFromAll p [] = Unit {0}
ApartFromAll p (q ∷ qs) = (q.is_load ≡ true → Apart p q) × ApartFromAll p qs

abbrev pub AllFit : ℕ → ℕ → List ProgramHeader → Type 0
AllFit ehdr size [] = Unit {0}
AllFit ehdr size (phdr ∷ phdrs) =
    (phdr.is_load ≡ true → Fits ehdr size phdr × ApartFromAll phdr phdrs) × AllFit ehdr size phdrs

abbrev pub OutsideAll : List ProgramHeader → ℕ → Type 0
OutsideAll [] a = Unit {0}
OutsideAll (phdr ∷ phdrs) a = (phdr.is_load ≡ true → Outside phdr a) × OutsideAll phdrs a

pub Outside-one :
    (p q : ProgramHeader) (i : ℕ) → i < p.p_memsz → Apart p q → Outside q (p.p_vaddr + i)
Outside-one p q i h (inl a) = inl (omega arith)
Outside-one p q i h (inr a) = inr (omega arith)

pub file-Outside :
    {ehdr size : ℕ} (p : ProgramHeader) (j : ℕ) → j < size → Fits ehdr size p → Outside p (ehdr + j)
file-Outside {ehdr} {size} p j h fit = elim fit.apart [
  | inl a ↦ inl (omega arith)
  | inr a ↦ inr (omega arith)
]

module _ (lib : MemoryLib) (laws : IsMemoryLib lib) (ehdr size : ℕ)
    (room : ehdr + size < u64_mod) where
  -- The two calls with the sums that do not wrap.
  segment_calls :
      (phdr : ProgramHeader) (m : Memory)
      → phdr.is_load ≡ true
      → Fits ehdr size phdr
      → copy_segment lib ehdr phdr m
        ≡ lib.set_mem
            (lib.copy_mem m phdr.p_vaddr (ehdr + phdr.p_offset) phdr.p_filesz)
            (phdr.p_vaddr + phdr.p_filesz)
            (phdr.p_memsz - phdr.p_filesz)
            0
  unfolding copy_segment
  segment_calls phdr m load fit =
      let from : (ehdr + phdr.p_offset) % u64_mod ≡ ehdr + phdr.p_offset =
        mod-eq_of_lt (omega (arith, fit.in_file)) in
      let to : (phdr.p_vaddr + phdr.p_filesz) % u64_mod ≡ phdr.p_vaddr + phdr.p_filesz =
        mod-eq_of_lt (omega (arith, fit.filesz, fit.ends)) in
      let remain : (phdr.p_memsz + u64_mod - phdr.p_filesz) % u64_mod
          ≡ phdr.p_memsz - phdr.p_filesz =
        omega (arith, fit.filesz, fit.ends) in
      rw (load, from, to, remain)

  pub segment-file :
      (phdr : ProgramHeader) (m : Memory) (i : ℕ)
      → phdr.is_load ≡ true
      → Fits ehdr size phdr
      → i < phdr.p_filesz
      → copy_segment lib ehdr phdr m (phdr.p_vaddr + i) ≡ m (ehdr + phdr.p_offset + i)
  segment-file phdr m i load fit h =
      rw (segment_calls phdr m load fit)
        (laws.not_filled _ _ _ _ _ (inl (omega arith)) ∙ laws.copied _ _ _ _ _ h)

  pub segment-zero :
      (phdr : ProgramHeader) (m : Memory) (i : ℕ)
      → phdr.is_load ≡ true
      → Fits ehdr size phdr
      → phdr.p_filesz ≤ i
      → i < phdr.p_memsz
      → copy_segment lib ehdr phdr m (phdr.p_vaddr + i) ≡ 0
  segment-zero phdr m i load fit h k =
      let e : phdr.p_vaddr + i ≡ phdr.p_vaddr + phdr.p_filesz + (i - phdr.p_filesz) = omega arith in
      rw (segment_calls phdr m load fit, e) (laws.filled _ _ _ _ _ (omega arith))

  out_zero :
      (phdr : ProgramHeader) (a : ℕ)
      → Fits ehdr size phdr
      → Outside phdr a
      → (a < phdr.p_vaddr + phdr.p_filesz)
        ⊎ (phdr.p_vaddr + phdr.p_filesz + (phdr.p_memsz - phdr.p_filesz) ≤ a)
  out_zero phdr a fit (inl h) = inl (omega arith)
  out_zero phdr a fit (inr h) = inr (omega (arith, fit.filesz))

  out_file :
      (phdr : ProgramHeader) (a : ℕ)
      → Fits ehdr size phdr
      → Outside phdr a
      → (a < phdr.p_vaddr) ⊎ (phdr.p_vaddr + phdr.p_filesz ≤ a)
  out_file phdr a fit (inl h) = inl h
  out_file phdr a fit (inr h) = inr (omega (arith, fit.filesz))

  pub segment-Outside :
      (phdr : ProgramHeader) (m : Memory) (a : ℕ)
      → (phdr.is_load ≡ true → Fits ehdr size phdr × Outside phdr a)
      → copy_segment lib ehdr phdr m a ≡ m a
  segment-Outside phdr m a h = elim (Bool-cases phdr.is_load) [
    | inl load ↦
        let (fit, out) = h load in
        rw (segment_calls phdr m load fit) (
          laws.not_filled _ _ _ _ _ (out_zero phdr a fit out)
          ∙ laws.not_copied _ _ _ _ _ (out_file phdr a fit out))
    | inr other ↦ unfold copy_segment in rw other
  ]

  pub segments-outside :
      (phdrs : List ProgramHeader) (m : Memory) (a : ℕ)
      → AllFit ehdr size phdrs
      → OutsideAll phdrs a
      → copy_load_segments lib ehdr phdrs m a ≡ m a
  unfolding copy_load_segments
  segments-outside [] m a fit out = refl
  segments-outside (phdr ∷ phdrs) m a (fit, fits) (out, outs) =
      segments-outside phdrs (copy_segment lib ehdr phdr m) a fits outs
      ∙ segment-Outside phdr m a (λ load. ((fit load).0, out load))
