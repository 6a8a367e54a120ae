-- ===== src/Graphics/Layers/Tests.antt =====
-- A window over a background, and the theorems at these layers.
use os_jisaku.Graphics.Color.{Bytes, rgb_resv_8_bit_per_color}
use os_jisaku.Graphics.Frame.{FrameBuffer, frame_size}
use os_jisaku.Graphics.Frame.Pixels.{offset_of}
use os_jisaku.Graphics.Frame.Valid.{IsValid}
use os_jisaku.Graphics.Geometry.{Rect, add, corners, includes, includes_rect}
use os_jisaku.Graphics.Layers.{
  Layer, draw_damage_to, draw_to, first_drawn, hiding_from, in_stack, manager_area,
}
use os_jisaku.Graphics.Layers.Double.{set_buffer_double}
use os_jisaku.Graphics.Layers.Double.Sync.{
  InSync, Request, answer_all, answer_all-same_pixels, damaged_layer, redraw,
}
use os_jisaku.Graphics.Layers.Manager.{
  LayerManager, erase_id, find_layer, moved_to, on_stack, up_down,
}
use os_jisaku.Graphics.Layers.Manager.Stack.{IsStack, up_down-places}
use os_jisaku.Graphics.Layers.Paint.{AllDrawable, paint_all, point}
use os_jisaku.Graphics.Layers.Redraw.{draw_damage_to-redraws, draw_to-paint_all}
use os_jisaku.Prelude.{
  List, [], arith, false, get_elem?, none, refl, some, true, ℕ, ◌%◌, ◌+◌, ◌∷◌, ◌≡◌,
}
use os_jisaku.Prelude.Int.{negsuc, pos, ◌+ℤ◌}

abbrev marked : Bytes
marked i = 7 + i % 50

abbrev plain : ℕ → ℕ → Bytes → FrameBuffer
plain w h bytes = record {
  bytes = bytes;
  pixels_per_scan_line = w;
  horizontal_resolution = w;
  vertical_resolution = h;
  pixel_format = rgb_resv_8_bit_per_color;
}

abbrev screen : FrameBuffer
screen = plain 4 4 (λ i. 0)

abbrev background : Layer
background = record {
  id = 1;
  pos_at = record { x = pos 0; y = pos 0 };
  buffer = plain 4 4 (λ i. 5);
  transparent_color = none;
  draggable = false;
}

abbrev window : Layer
window = record {
  id = 2;
  pos_at = record { x = pos 1; y = negsuc 0 };
  buffer = plain 2 3 marked;
  transparent_color = some (record { r = 9; g = 10; b = 11 });
  draggable = true;
}

abbrev damaged : Rect
damaged = record { left = pos 0; top = pos 0; right = pos 2; bottom = pos 2 }

abbrev stack : List Layer
stack = background ∷ window ∷ []

screen-IsValid : IsValid screen
screen-IsValid = record { pitch = omega arith; small = omega arith }

stack-drawable : AllDrawable rgb_resv_8_bit_per_color stack
stack-drawable = (
  record {
    valid = record { pitch = omega arith; small = omega arith };
    bytes = λ i. omega arith;
    color = tt;
    format = refl;
  },
  (
    record {
      valid = record { pitch = omega arith; small = omega arith };
      bytes = λ i. omega arith;
      color = (omega arith, omega arith, omega arith);
      format = refl;
    },
    tt,
  ),
)

draw_to-paint_all_example :
    (draw_to screen stack).bytes (offset_of 4 4 1 0 2) ≡ paint_all (point 1 0) 2 stack 0
draw_to-paint_all_example =
    draw_to-paint_all screen screen-IsValid 1 0 2 (omega arith) (omega arith) (omega arith) stack
      stack-drawable

draw_damage_to-redraws_example :
    (draw_damage_to screen 2 damaged stack).bytes (offset_of 4 4 1 0 2)
    ≡ (draw_to screen stack).bytes (offset_of 4 4 1 0 2)
unfolding includes in_stack first_drawn hiding_from manager_area corners add frame_size
    includes_rect ◌+ℤ◌
draw_damage_to-redraws_example =
    draw_damage_to-redraws screen screen-IsValid 1 0 2 (omega arith) (omega arith) (omega arith) 2
      damaged stack stack-drawable refl

-- Three layers, with the second on top.
abbrev manager : LayerManager
manager = record {
  buffer = none;
  layer_stack = 1 ∷ 3 ∷ 2 ∷ [];
  pixel_format = rgb_resv_8_bit_per_color;
  layers = background ∷ window ∷ record window { id = 3 } ∷ [];
  latest_id = 3;
}

raise_background : moved_to 7 1 (1 ∷ 3 ∷ 2 ∷ []) ≡ 3 ∷ 2 ∷ 1 ∷ []
unfolding moved_to
raise_background = refl

up_down-places_example :
    (m' : LayerManager) × (up_down manager 1 (pos 1) ≡ some m')
    × (get_elem? m'.layer_stack 1 ≡ some 1)
    × (erase_id 1 m'.layer_stack ≡ 3 ∷ 2 ∷ [])
    × IsStack m'.layer_stack
    × (m' ≡ record manager { layer_stack = m'.layer_stack; buffer = m'.buffer })
unfolding erase_id on_stack find_layer
up_down-places_example = up_down-places manager 1 1 background (refl, (refl, (refl, tt))) refl

abbrev requests : List Request
requests = redraw stack ∷ damaged_layer 2 (damaged ∷ damaged ∷ []) stack ∷ []

answer_all-same_pixels_example :
    InSync rgb_resv_8_bit_per_color (answer_all requests (set_buffer_double screen))
answer_all-same_pixels_example =
    answer_all-same_pixels screen screen-IsValid (λ i. omega arith) requests
      (stack-drawable, (stack-drawable, tt))
