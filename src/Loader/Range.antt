-- ===== src/Loader/Range.antt =====
-- MikanLoaderPkg/LoadKernel.c: `CalcLoadAddressRange` is the smallest range around the segments.
use native.Mathlib.Nat.{mod-eq_of_lt}
use os_jisaku.Loader.{ProgramHeader, calc_load_address_range, range_from, u64_mod}
use os_jisaku.Prelude.{
  Bool-cases, List, [], arith, inl, inr, max, min, refl, true, ℕ, ◌%◌, ◌+◌, ◌-◌, ◌<◌, ◌↔◌, ◌∷◌, ◌≡◌,
  ◌≤◌,
}

-- A segment that is loaded ends below 2 ^ 64.
abbrev pub AllInRange : List ProgramHeader → Type 0
AllInRange [] = Unit {0}
AllInRange (phdr ∷ phdrs) =
    (phdr.is_load ≡ true → phdr.p_vaddr + phdr.p_memsz < u64_mod) × AllInRange phdrs

-- Every loaded segment lies in the range from `first` up to `last`.
abbrev pub AllWithin : ℕ → ℕ → List ProgramHeader → Type 0
AllWithin first last [] = Unit {0}
AllWithin first last (phdr ∷ phdrs) =
    (phdr.is_load ≡ true → (first ≤ phdr.p_vaddr) × (phdr.p_vaddr + phdr.p_memsz ≤ last))
    × AllWithin first last phdrs

-- The range around `first` and `last` and the segments that are left includes all, and is included
-- in every range that does.
range_from-hull :
    (phdrs : List ProgramHeader) (first last lo hi : ℕ)
    → AllInRange phdrs
    → (((lo ≤ first) × (last ≤ hi)) × AllWithin lo hi phdrs)
      ↔ ((lo ≤ (range_from phdrs (first, last)).0) × ((range_from phdrs (first, last)).1 ≤ hi))
unfolding range_from
range_from-hull [] first last lo hi ok = (λ h. h.0, λ h. (h, tt))
range_from-hull (phdr ∷ phdrs) first last lo hi (fits, ok) = elim (Bool-cases phdr.is_load) [
  | inl e ↦ rw e (
      let rest =
        range_from-hull phdrs (min first phdr.p_vaddr)
          (max last ((phdr.p_vaddr + phdr.p_memsz) % u64_mod)) lo hi ok in
      let small : (phdr.p_vaddr + phdr.p_memsz) % u64_mod ≡ phdr.p_vaddr + phdr.p_memsz =
        mod-eq_of_lt (fits e) in
      (
        λ ((l, u), (within, all)).
            rest.0 ((omega (arith, within refl), omega (arith, small, within refl)), all),
        λ h.
            let ((l, u), all) = rest.1 h in
            ((omega arith, omega arith), ((λ _. (omega arith, omega (arith, small))), all)),
      ))
  | inr e ↦ rw e (
      let rest = range_from-hull phdrs first last lo hi ok in
      (λ (b, (w, all)). rest.0 (b, all), λ h. let (b, all) = rest.1 h in (b, ((λ t. cc), all))))
]

-- When the segments end below 2 ^ 64, a range includes every loaded segment exactly when it
-- includes the range that `calc_load_address_range` gives, if the latter is not above 2 ^ 64 - 1.
pub calc_load_address_range-hull :
    (phdrs : List ProgramHeader) (lo hi : ℕ)
    → AllInRange phdrs
    → lo < u64_mod
    → AllWithin lo hi phdrs
      ↔ ((lo ≤ (calc_load_address_range phdrs).0) × ((calc_load_address_range phdrs).1 ≤ hi))
unfolding calc_load_address_range
calc_load_address_range-hull phdrs lo hi ok small =
    let hull = range_from-hull phdrs (u64_mod - 1) 0 lo hi ok in
    (λ all. hull.0 ((omega arith, omega arith), all), λ h. (hull.1 h).1)
