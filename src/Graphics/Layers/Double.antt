-- ===== src/Graphics/Layers/Double.antt =====
-- kernel/graphics/layer_manager.cpp: `DoubleBufferedLayerManager`, while it has a buffer and no parent.
-- `Buffers` is `buffer_` and `back_buffer_`.
pub mod Parts
pub mod Sync
use os_jisaku.Graphics.Frame.{Coords, FrameBuffer, copy_from}
use os_jisaku.Graphics.Frame.Whole.{clone, forward}
use os_jisaku.Graphics.Geometry.{Rect, size, top_left}
use os_jisaku.Graphics.Layers.{Layer, draw_damage_to, draw_to, merge_rects}
use os_jisaku.Prelude.{List, [], none, ℕ, ◌∷◌}
use os_jisaku.Usb.EventRing.{front}

pub record Buffers : Type 0 where
  pub front : FrameBuffer
  pub back : FrameBuffer

-- `set_buffer` with a buffer.
unfoldable pub set_buffer_double : FrameBuffer → Buffers
unfolding clone
set_buffer_double buffer = record { front = buffer; back = clone buffer }

unfoldable pub draw_double : Buffers → List Layer → Buffers
unfolding draw_to forward
draw_double b stack =
    let drawn_back = draw_to b.back stack in
    record { front = forward b.front drawn_back; back = drawn_back }

abbrev pub damaged_part : Rect → Coords
damaged_part rect = record { to_pos = top_left rect; src_pos = top_left rect; size = size rect }

-- `damage` of the merged rectangle.
unfoldable pub damage_merged : Buffers → ℕ → Rect → List Layer → Buffers
unfolding draw_damage_to copy_from top_left size
damage_merged b id merged_rect stack =
    let drawn_back = draw_damage_to b.back id merged_rect stack in
    record {
      front = (copy_from b.front drawn_back (damaged_part merged_rect) none).1;
      back = drawn_back;
    }

unfoldable pub damage_double : Buffers → ℕ → List Rect → List Layer → Buffers
unfolding damage_merged merge_rects
damage_double b id [] stack = b
damage_double b id (rect ∷ rects) stack = damage_merged b id (merge_rects rect rects) stack
