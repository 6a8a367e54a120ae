-- ===== src/Graphics/Layers.antt =====
-- kernel/graphics/layer.cpp, buffer_layer.cpp, group_layer.cpp and layer_manager.cpp: layers, the
-- stack in which they lie over each other, and the drawing of the stack to a frame buffer.
-- A pointer to a layer is the layer's number. A manager has no parent here, and a group's own manager
-- is not modelled: a layer is its place, its buffer and its transparent colour.
pub mod Paint
pub mod Hiding
pub mod Redraw
pub mod Manager
pub mod Double
mod Tests
use os_jisaku.Graphics.Color.{PixelColor}
use os_jisaku.Graphics.Frame.{FrameBuffer, copy_all_from, copy_from, frame_size}
use os_jisaku.Graphics.Geometry.{
  Rect, Vector2D, add, corners, cross, includes_rect, is_crossing, merge, size, sub, top_left,
}
use os_jisaku.Prelude.{
  Bool, List, Option, [], false, if◌then◌else◌, none, not, some, true, ℕ, ◌&&◌, ◌==◌, ◌||◌, ◌∷◌,
}

pub record Layer : Type 0 where
  pub id : ℕ
  pub pos_at : Vector2D
  pub buffer : FrameBuffer
  pub transparent_color : Option PixelColor
  pub draggable : Bool

abbrev pub has_transparency : Layer → Bool
has_transparency l = elim l.transparent_color [ some c ↦ true | none ↦ false ]

unfoldable pub manager_area : Layer → Rect
unfolding corners add frame_size
manager_area l = corners l.pos_at (add l.pos_at (frame_size l.buffer))

-- `BufferLayer` and `GroupLayer` draw alike: all of the layer, or what lies in `damage`.
unfoldable pub draw_layer : FrameBuffer → Layer → FrameBuffer
draw_layer dst l = (copy_all_from dst l.buffer l.pos_at l.transparent_color).1

unfoldable pub draw_layer_in : Rect → FrameBuffer → Layer → FrameBuffer
unfolding cross is_crossing top_left size sub manager_area
draw_layer_in damage dst l =
    let common = cross damage (manager_area l) in
    if not (is_crossing damage (manager_area l))
    then dst
    else (copy_from dst l.buffer
        (record {
          to_pos = top_left common;
          src_pos = sub (top_left common) l.pos_at;
          size = size common;
        })
        l.transparent_color).1

-- `LayerManager::draw_to`.
unfoldable pub draw_to : FrameBuffer → List Layer → FrameBuffer
unfolding draw_layer
draw_to dst [] = dst
draw_to dst (l ∷ ls) = draw_to (draw_layer dst l) ls

-- The last loop of `draw_damage_to`.
unfoldable pub draw_in : Rect → FrameBuffer → List Layer → FrameBuffer
unfolding draw_layer_in
draw_in rect dst [] = dst
draw_in rect dst (l ∷ ls) = draw_in rect (draw_layer_in rect dst l) ls

abbrev pub hides : Rect → Layer → Bool
hides rect l = not (has_transparency l) && includes_rect (manager_area l) rect

-- The stack from the frontmost layer on that hides all of `rect`; `none` if there is none.
unfoldable pub hiding_from : Rect → List Layer → Option (List Layer)
hiding_from rect [] = none
hiding_from rect (l ∷ ls) = elim (hiding_from rect ls) [
  | some front ↦ some front
  | none ↦ if hides rect l then some (l ∷ ls) else none
]

abbrev pub front_or : List Layer → Option (List Layer) → List Layer
front_or stack (some front) = front
front_or stack none = stack

-- Where the first loop of `draw_damage_to` stops.
unfoldable pub first_drawn : Rect → List Layer → List Layer
unfolding hiding_from
first_drawn rect stack = elim (hiding_from rect stack) [ some front ↦ front | none ↦ stack ]

-- `find_layer_stack_itr(id, i) != layer_stack_.end()`.
unfoldable pub in_stack : ℕ → List Layer → Bool
in_stack id [] = false
in_stack id (l ∷ ls) = l.id == id || in_stack id ls

unfoldable pub draw_damage_to : FrameBuffer → ℕ → Rect → List Layer → FrameBuffer
unfolding first_drawn in_stack draw_in
draw_damage_to dst id rect stack =
    if not (in_stack id (first_drawn rect stack))
    then dst
    else draw_in rect dst (first_drawn rect stack)

unfoldable pub merge_rects : Rect → List Rect → Rect
merge_rects merged [] = merged
merge_rects merged (r ∷ rs) = merge_rects (merge merged r) rs
