-- ===== src/Usb/ArrayMap/Gets.antt =====
-- kernel/usb/interface/usb/arraymap.hpp: what `Get` finds after `Put` and `Delete`.
use os_jisaku.Prelude.{
  Bool, Bool-cases, [], ap, false, if◌then◌else◌, inl, inr, none, refl, some, true, ◌∷◌, ◌≡◌,
}
use os_jisaku.Usb.ArrayMap.{Table, get, has_room, put}

module _ {K : Type 0} {V : Type 0} (eqb : K → K → Bool) (eqb_refl : (k : K) → eqb k k ≡ true) where
  -- A key that is not there gets the value put, where there is room, and stays absent without room.
  pub put_absent :
      (table : Table K V) (key : K) (value : V)
      → get eqb table key ≡ none
      → get eqb (put table key value) key ≡ (if has_room table then some value else none)
  unfolding get put
  put_absent [] key value h = refl
  put_absent ((none, v) ∷ table) key value h = rw (eqb_refl key)
  put_absent ((some k, v) ∷ table) key value h = elim (Bool-cases (eqb k key)) [
    | inl t ↦ let b : some v ≡ none = rw t at h in absurd cc
    | inr f ↦ rw f (put_absent table key value (rw f at h))
  ]

  -- What is put at one key is not seen at another.
  pub put_other :
      (table : Table K V) (key other : K) (value : V)
      → eqb key other ≡ false
      → get eqb (put table key value) other ≡ get eqb table other
  unfolding get put
  put_other [] key other value h = refl
  put_other ((none, v) ∷ table) key other value h = rw h
  put_other ((some k, v) ∷ table) key other value h =
      ap (λ g. if eqb k other then some v else g) (put_other table key other value h)

  -- With no room nothing is put.
  pub put_full :
      (table : Table K V) (key : K) (value : V)
      → has_room table ≡ false
      → put table key value ≡ table
  unfolding put
  put_full [] key value h = refl
  put_full ((none, v) ∷ table) key value h = absurd cc
  put_full ((some k, v) ∷ table) key value h =
      ap (λ t. (some k, v) ∷ t) (put_full table key value h)
