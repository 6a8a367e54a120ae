-- ===== src/Pci/Xhc.antt =====
-- Which USB controller `find_xhc_device` chooses.
use os_jisaku.Pci.{Device, find_from, find_xhc_device, match_interface}
use os_jisaku.Prelude.{
  Bool, Bool-cases, List, Option, [], ap, false, inl, inr, none, refl, some, true, ◌&&◌, ◌++◌, ◌==◌,
  ◌||◌, ◌∷◌, ◌≡◌, ◌⊎◌,
}

abbrev pub is_xhc : Device → Bool
is_xhc d = match_interface d.class_code 0x0c 0x03 0x30

abbrev pub is_intel_xhc : Device → Bool
is_intel_xhc d = is_xhc d && d.vendor_id == 0x8086

abbrev pub any : (Device → Bool) → List Device → Bool
any p [] = false
any p (d ∷ ds) = p d || any p ds

-- The controller stands in the list; it is the first of Intel's, or there is none of Intel's and it
-- is the last of all.
abbrev pub IsChoice : Device → List Device → Type 0
IsChoice c ds =
    (before : List Device) × (after : List Device) × (ds ≡ before ++ (c ∷ after))
    × (is_xhc c ≡ true)
    × ((c.vendor_id == 0x8086) ≡ true × (any is_intel_xhc before ≡ false)
        ⊎ (any is_intel_xhc ds ≡ false) × (any is_xhc after ≡ false))

abbrev pub Chosen : List Device → Option Device → Type 0
Chosen ds none = any is_xhc ds ≡ false
Chosen ds (some c) = IsChoice c ds

no_intel : (ds : List Device) → any is_xhc ds ≡ false → any is_intel_xhc ds ≡ false
no_intel [] h = refl
no_intel (d ∷ ds) h = elim (Bool-cases (is_xhc d)) [
  | inl match ↦ cc (rw match at h)
  | inr other ↦ rw other (no_intel ds (rw other at h))
]

-- A device that is not Intel's in front of the list changes no choice.
IsChoice-cons :
    (c d : Device) (ds : List Device) → is_intel_xhc d ≡ false → IsChoice c ds → IsChoice c (d ∷ ds)
IsChoice-cons c d ds h (before, after, e, match, inl (intel, first)) =
    (d ∷ before, after, ap (λ s. d ∷ s) e, match, inl (intel, rw (h, first)))
IsChoice-cons c d ds h (before, after, e, match, inr (none_intel, last)) =
    (d ∷ before, after, ap (λ s. d ∷ s) e, match, inr (rw (h, none_intel), last))

find_from-chooses :
    (best : Option Device) (ds : List Device)
    → (find_from best ds ≡ best) × (any is_xhc ds ≡ false)
      ⊎ (c : Device) × (find_from best ds ≡ some c) × IsChoice c ds
unfolding find_from
find_from-chooses best [] = inl (refl, refl)
find_from-chooses best (d ∷ ds) = elim (Bool-cases (is_xhc d)) [
  | inr other ↦
      let not_intel : is_intel_xhc d ≡ false = rw other in
      elim (find_from-chooses best ds) [
        | inl (e, nothing) ↦ inl (rw other e, rw (other, nothing))
        | inr (c, e, choice) ↦ inr (c, rw other e, IsChoice-cons c d ds not_intel choice)
      ]
  | inl match ↦ elim (Bool-cases (d.vendor_id == 0x8086)) [
    | inl intel ↦ inr (d, rw (match, intel), ([], ds, refl, match, inl (intel, refl)))
    | inr not_intels ↦
        let not_intel : is_intel_xhc d ≡ false = rw (match, not_intels) in
        elim (find_from-chooses (some d) ds) [
          | inl (e, nothing) ↦ inr (
            d,
            rw (match, not_intels) e,
            ([], ds, refl, match, inr (rw (not_intel, no_intel ds nothing), nothing)),
          )
          | inr (c, e, choice) ↦
              inr (c, rw (match, not_intels) e, IsChoice-cons c d ds not_intel choice)
        ]
  ]
]

-- `find_xhc_device` finds a controller exactly when the list has one: the first of Intel's, or the
-- last of all when none is Intel's.
pub find_xhc_device-Chosen : (ds : List Device) → Chosen ds (find_xhc_device ds)
unfolding find_xhc_device
find_xhc_device-Chosen ds = elim (find_from-chooses none ds) [
  | inl (e, nothing) ↦ rw e nothing
  | inr (c, e, choice) ↦ rw e choice
]
