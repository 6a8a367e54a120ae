-- ===== src/Graphics/Layers/Manager/Stack.antt =====
-- `up_down` and `hide` as changes of the order in which the layers lie.
use os_jisaku.Graphics.Layers.{Layer, manager_area}
use os_jisaku.Graphics.Layers.Manager.{
  LayerManager, damage, erase_id, find_layer, hide, insert_at, moved_to, on_stack, up_down,
}
use os_jisaku.Prelude.{
  ==→≡, Bool, Bool-cases, List, [], ap, arith, false, get_elem?, inl, inr, length, min, refl, some,
  suc, true, zero, ℕ, ◌==◌, ◌||◌, ◌∷◌, ◌≡◌, ◌≢◌, ◌≤◌,
}
use os_jisaku.Prelude.Int.{negsuc, pos}

-- No layer lies twice in the stack.
abbrev pub IsStack : List ℕ → Type 0
IsStack [] = Unit {0}
IsStack (i ∷ ids) = (on_stack i ids ≡ false) × IsStack ids

or_parts : (a b : Bool) → (a || b) ≡ false → (a ≡ false) × (b ≡ false)
or_parts false b h = (refl, h)
or_parts true b h = cc

or_swap : (a b c : Bool) → (a || (b || c)) ≡ (b || (a || c))
or_swap true true c = refl
or_swap true false c = refl
or_swap false b c = refl

same_id : (id : ℕ) → (id == id) ≡ true
same_id id = ground arith

length-erase_id :
    (id : ℕ) (ids : List ℕ) → on_stack id ids ≡ true → length ids ≡ suc (length (erase_id id ids))
unfolding on_stack erase_id
length-erase_id id [] h = cc
length-erase_id id (i ∷ ids) h = ground (arith, length-erase_id id ids)

erase_id-absent : (id : ℕ) (ids : List ℕ) → on_stack id ids ≡ false → erase_id id ids ≡ ids
unfolding on_stack erase_id
erase_id-absent id [] h = refl
erase_id-absent id (i ∷ ids) h =
    let (other, rest) = or_parts (i == id) (on_stack id ids) h in
    rw other (ap (λ s. i ∷ s) (erase_id-absent id ids rest))

on_stack-erase_id :
    (i id : ℕ) (ids : List ℕ) → on_stack i ids ≡ false → on_stack i (erase_id id ids) ≡ false
unfolding on_stack erase_id
on_stack-erase_id i id [] h = refl
on_stack-erase_id i id (j ∷ ids) h = ground (arith, on_stack-erase_id i id ids)

erase_id-IsStack :
    (id : ℕ) (ids : List ℕ)
    → IsStack ids
    → IsStack (erase_id id ids) × (on_stack id (erase_id id ids) ≡ false)
unfolding erase_id on_stack
erase_id-IsStack id [] h = (tt, refl)
erase_id-IsStack id (i ∷ ids) (h, hs) =
    let (later, gone) = erase_id-IsStack id ids hs in
    elim (Bool-cases (i == id)) [
      | inl same ↦ rw same (hs, rw (==→≡ i id same) at h)
      | inr other ↦ rw (other) ((on_stack-erase_id i id ids h, later), rw (other, gone))
    ]

on_stack-insert_at :
    (i n id : ℕ) (ids : List ℕ) → on_stack i (insert_at n id ids) ≡ (id == i || on_stack i ids)
unfolding on_stack insert_at
on_stack-insert_at i zero id ids = refl
on_stack-insert_at i (suc n) id [] = refl
on_stack-insert_at i (suc n) id (j ∷ ids) =
    rw (on_stack-insert_at i n id ids) (or_swap (j == i) (id == i) (on_stack i ids))

insert_at-IsStack :
    (n id : ℕ) (ids : List ℕ) → IsStack ids → on_stack id ids ≡ false → IsStack (insert_at n id ids)
unfolding insert_at on_stack
insert_at-IsStack zero id ids h a = (a, h)
insert_at-IsStack (suc n) id [] h a = (refl, tt)
insert_at-IsStack (suc n) id (j ∷ ids) (h, hs) a =
    let (other, rest) = or_parts (j == id) (on_stack id ids) a in
    let ids_apart : (id == j) ≡ false = ground arith in
    (rw (on_stack-insert_at j n id ids, h, ids_apart) refl, insert_at-IsStack n id ids hs rest)

get_elem?-insert_at :
    (n id : ℕ) (ids : List ℕ) → n ≤ length ids → get_elem? (insert_at n id ids) n ≡ some id
unfolding insert_at
get_elem?-insert_at zero id ids h = refl
get_elem?-insert_at (suc n) id [] h = absurd (omega arith)
get_elem?-insert_at (suc n) id (j ∷ ids) h = get_elem?-insert_at n id ids (omega arith)

erase_id-insert_at :
    (n id : ℕ) (ids : List ℕ) → on_stack id ids ≡ false → erase_id id (insert_at n id ids) ≡ ids
unfolding insert_at erase_id on_stack
erase_id-insert_at zero id ids a = rw (same_id id)
erase_id-insert_at (suc n) id [] a = rw (same_id id)
erase_id-insert_at (suc n) id (j ∷ ids) a =
    let (other, rest) = or_parts (j == id) (on_stack id ids) a in
    rw other (ap (λ s. j ∷ s) (erase_id-insert_at n id ids rest))

on_stack-erase_id_ne :
    (i id : ℕ) (ids : List ℕ) → i ≢ id → on_stack i (erase_id id ids) ≡ on_stack i ids
unfolding on_stack erase_id
on_stack-erase_id_ne i id [] h = refl
on_stack-erase_id_ne i id (j ∷ ids) h = elim (Bool-cases (j == id)) [
  | inl same ↦
      let j_is = ==→≡ j id same in let apart : (j == i) ≡ false = ground arith in rw (same, apart)
  | inr other ↦ rw (other, on_stack-erase_id_ne i id ids h)
]

-- Wherever the layer was before, it is inserted among the others.
moved_to-insert_at :
    (n id : ℕ) (ids : List ℕ)
    → moved_to n id ids ≡ insert_at (min n (length (erase_id id ids))) id (erase_id id ids)
unfolding moved_to
moved_to-insert_at n id ids = elim (Bool-cases (on_stack id ids)) [
  | inl there ↦
      let long = length-erase_id id ids there in
      rw there (ap (λ k. insert_at k id (erase_id id ids)) (ground arith))
  | inr absent ↦
      rw (absent, erase_id-absent id ids absent) (ap (λ k. insert_at k id ids) (ground arith))
]

-- The place of a moved layer, with the rest of the stack as it was.
moved_to-parts :
    (n id : ℕ) (ids : List ℕ)
    → IsStack ids
    → (get_elem? (moved_to n id ids) (min n (length (erase_id id ids))) ≡ some id)
      × (erase_id id (moved_to n id ids) ≡ erase_id id ids)
      × IsStack (moved_to n id ids)
unfolding moved_to
moved_to-parts n id ids h =
    let (rest, gone) = erase_id-IsStack id ids h in
    let others = erase_id id ids in
    let k = min n (length others) in
    rw (moved_to-insert_at n id ids) (
      get_elem?-insert_at k id others (omega arith),
      erase_id-insert_at k id others gone,
      insert_at-IsStack k id others rest gone,
    )

-- With the layer on the stack or not, `up_down` to the place `n` puts it there, or on top when the
-- other layers are fewer; the other layers keep their order, no layer lies twice in the stack, and
-- only the stack and the picture change.
pub up_down-places :
    (m : LayerManager) (id n : ℕ) (l : Layer)
    → IsStack m.layer_stack
    → find_layer m id ≡ some l
    → (m' : LayerManager) × (up_down m id (pos n) ≡ some m')
      × (get_elem? m'.layer_stack (min n (length (erase_id id m.layer_stack))) ≡ some id)
      × (erase_id id m'.layer_stack ≡ erase_id id m.layer_stack)
      × IsStack m'.layer_stack
      × (m' ≡ record m { layer_stack = m'.layer_stack; buffer = m'.buffer })
unfolding up_down damage
up_down-places m id n l h e =
    let (there, others, stack) = moved_to-parts n id m.layer_stack h in
    (
      damage (record m { layer_stack = moved_to n id m.layer_stack }) l.id (manager_area l ∷ []),
      rw (e, up_down),
      there,
      others,
      stack,
      refl,
    )

-- A layer that `hide` or a negative height takes off the stack is not on it any more; the order of
-- the others stays, and no layer lies twice in the stack.
pub hide-removes :
    (m : LayerManager) (id n : ℕ)
    → IsStack m.layer_stack
    → (up_down m id (negsuc n) ≡ some (hide m id))
      × (on_stack id (hide m id).layer_stack ≡ false)
      × IsStack (hide m id).layer_stack
      × ((i : ℕ) → i ≢ id → on_stack i (hide m id).layer_stack ≡ on_stack i m.layer_stack)
unfolding hide up_down
hide-removes m id n h =
    let (rest, gone) = erase_id-IsStack id m.layer_stack h in
    (refl, gone, rest, λ i other. on_stack-erase_id_ne i id m.layer_stack other)
