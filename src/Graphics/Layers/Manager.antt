-- ===== src/Graphics/Layers/Manager.antt =====
-- kernel/graphics/layer_manager.cpp: the operations of `LayerManager`, a manager without a parent.
-- A `Layer*` in the stack is the layer's number, and stands for the layer that `layers_` holds.
pub mod Stack
use mathlib.Core.List.{reverse}
use os_jisaku.Graphics.Color.{PixelFormat}
use os_jisaku.Graphics.Frame.{FrameBuffer, new, to_u32}
use os_jisaku.Graphics.Geometry.{Rect, Vector2D, includes, size}
use os_jisaku.Graphics.Layers.{Layer, draw_damage_to, draw_to, manager_area, merge_rects}
use os_jisaku.Prelude.{
  Bool, List, Option, [], false, if◌then◌else◌, length, ltb, none, not, some, suc, zero, ℕ, ◌%◌,
  ◌++◌, ◌+◌, ◌-◌, ◌==◌, ◌^◌, ◌||◌, ◌∷◌,
}
use os_jisaku.Prelude.Int.{negsuc, pos, ℤ}

pub record LayerManager : Type 0 where
  pub buffer : Option FrameBuffer
  pub layer_stack : List ℕ
  pub pixel_format : PixelFormat
  pub layers : List Layer
  pub latest_id : ℕ

abbrev pub empty_manager : PixelFormat → LayerManager
empty_manager format = record {
  buffer = none;
  layer_stack = [];
  pixel_format = format;
  layers = [];
  latest_id = 0;
}

abbrev pub set_buffer : LayerManager → Option FrameBuffer → LayerManager
set_buffer m buffer = record m { buffer = buffer }

abbrev first_layer : (Layer → Bool) → List Layer → Option Layer
first_layer p [] = none
first_layer p (l ∷ ls) = if p l then some l else first_layer p ls

unfoldable pub find_layer : LayerManager → ℕ → Option Layer
find_layer m id = first_layer (λ l. l.id == id) m.layers

-- The layers that the stack points to, from the back to the front.
unfoldable pub stack_layers : LayerManager → List Layer
unfolding find_layer
stack_layers m = pointed m.layer_stack
  where
    pointed : List ℕ → List Layer
    pointed [] = []
    pointed (id ∷ ids) = elim (find_layer m id) [ some l ↦ l ∷ pointed ids | none ↦ pointed ids ]

unfoldable pub find_layer_by_position : LayerManager → Vector2D → ℕ → Option Layer
unfolding includes manager_area stack_layers
find_layer_by_position m p exclude_id =
    first_layer (λ l. if l.id == exclude_id then false else includes (manager_area l) p)
      (reverse (stack_layers m))

-- `new_layer` for a `BufferLayer`, with the layer that it returns.
unfoldable pub new_layer : LayerManager → Vector2D → Layer × LayerManager
new_layer m size =
    let id : ℕ = (m.latest_id + 1) % 2 ^ 32 in
    let layer : Layer = record {
      id = id;
      pos_at = record { x = pos 0; y = pos 0 };
      buffer = new (record {
        frame_buffer = none;
        pixels_per_scan_line = to_u32 size.x;
        horizontal_resolution = to_u32 size.x;
        vertical_resolution = to_u32 size.y;
        pixel_format = m.pixel_format;
      });
      transparent_color = none;
      draggable = false;
    } in
    (layer, record m { latest_id = id; layers = m.layers ++ (layer ∷ []) })

abbrev draw_damage : LayerManager → ℕ → List Rect → Option FrameBuffer
draw_damage m id [] = m.buffer
draw_damage m id (r ∷ rs) = elim m.buffer [
  | some buffer ↦ some (draw_damage_to buffer id (merge_rects r rs) (stack_layers m))
  | none ↦ none
]

unfoldable pub damage : LayerManager → ℕ → List Rect → LayerManager
unfolding draw_damage_to merge_rects stack_layers
damage m id rects = record m { buffer = draw_damage m id rects }

-- `draw`.
unfoldable pub draw : LayerManager → LayerManager
unfolding draw_to stack_layers
draw m = record m {
  buffer = elim m.buffer [ some buffer ↦ some (draw_to buffer (stack_layers m)) | none ↦ none ];
}

-- `erase` at the first place of a number.
unfoldable pub erase_id : ℕ → List ℕ → List ℕ
erase_id id [] = []
erase_id id (i ∷ ids) = if i == id then ids else i ∷ erase_id id ids

unfoldable pub hide : LayerManager → ℕ → LayerManager
unfolding erase_id
hide m id = record m { layer_stack = erase_id id m.layer_stack }

-- `insert` before the place `n`.
unfoldable pub insert_at : ℕ → ℕ → List ℕ → List ℕ
insert_at zero id ids = id ∷ ids
insert_at (suc n) id [] = id ∷ []
insert_at (suc n) id (i ∷ ids) = i ∷ insert_at n id ids

unfoldable pub on_stack : ℕ → List ℕ → Bool
on_stack id [] = false
on_stack id (i ∷ ids) = i == id || on_stack id ids

-- The stack after `up_down` to a place that is not negative.
unfoldable pub moved_to : ℕ → ℕ → List ℕ → List ℕ
unfolding on_stack erase_id insert_at
moved_to new_height id ids =
    let new_pos = if ltb (length ids) new_height then length ids else new_height in
    if not (on_stack id ids)
    then insert_at new_pos id ids
    else insert_at (if new_pos == length ids then new_pos - 1 else new_pos) id (erase_id id ids)

-- `up_down`; `none` is the use of a null pointer, when there is no such layer.
unfoldable pub up_down : LayerManager → ℕ → ℤ → Option LayerManager
unfolding hide find_layer moved_to damage
up_down m id (negsuc n) = some (hide m id)
up_down m id (pos new_height) = elim (find_layer m id) [
  | some layer ↦ some (
      damage (record m { layer_stack = moved_to new_height id m.layer_stack }) layer.id
        (manager_area layer ∷ []))
  | none ↦ none
]

-- `Layer::move` of a layer of the manager.
unfoldable pub move : LayerManager → ℕ → Vector2D → Option LayerManager
unfolding find_layer damage manager_area
move m id new_position = elim (find_layer m id) [
  | some layer ↦
      let moved : Layer = record layer { pos_at = new_position } in
      some (
        damage (record m { layers = placed moved m.layers }) layer.id
          (manager_area layer ∷ manager_area moved ∷ []))
  | none ↦ none
]
  where
    placed : Layer → List Layer → List Layer
    placed moved [] = []
    placed moved (l ∷ ls) = if l.id == moved.id then moved ∷ ls else l ∷ placed moved ls
