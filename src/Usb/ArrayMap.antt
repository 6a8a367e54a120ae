-- ===== src/Usb/ArrayMap.antt =====
-- kernel/usb/interface/usb/arraymap.hpp: a map of a fixed number of places, each with a key or none.
pub mod Gets
use os_jisaku.Prelude.{Bool, List, Option, [], false, if◌then◌else◌, none, some, true, ◌∷◌}

-- `table_`. Its length is `N`.
abbrev pub Table : Type 0 → Type 0 → Type 0
Table K V = List (Option K × V)

-- `opt_k && opt_k.value() == key`, with `==` on the keys.
abbrev pub holds_key : {K : Type 0} → (K → K → Bool) → K → Option K → Bool
holds_key eqb key none = false
holds_key eqb key (some k) = eqb k key

module _ {K : Type 0} {V : Type 0} (eqb : K → K → Bool) where
  unfoldable pub get : Table K V → K → Option V
  get [] key = none
  get ((k, v) ∷ table) key = if holds_key eqb key k then some v else get table key

  unfoldable pub delete : Table K V → K → Table K V
  delete [] key = []
  delete ((k, v) ∷ table) key =
      if holds_key eqb key k then (none, v) ∷ table else (k, v) ∷ delete table key

module _ {K : Type 0} {V : Type 0} where
  unfoldable pub put : Table K V → K → V → Table K V
  put [] key value = []
  put ((none, v) ∷ table) key value = (some key, value) ∷ table
  put ((some k, v) ∷ table) key value = (some k, v) ∷ put table key value

  abbrev pub has_room : Table K V → Bool
  has_room [] = false
  has_room ((none, v) ∷ table) = true
  has_room ((some k, v) ∷ table) = has_room table
