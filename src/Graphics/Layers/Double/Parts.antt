-- ===== src/Graphics/Layers/Double/Parts.antt =====
-- kernel/graphics/layer_manager.cpp: what the drawing of a damaged rectangle changes, and its copy to the screen.
use os_jisaku.Graphics.Color.{Bytes, PixelFormat}
use os_jisaku.Graphics.Frame.{FrameBuffer, copy_all_from, copy_from}
use os_jisaku.Graphics.Frame.Clip.{bounds, part, target_of}
use os_jisaku.Graphics.Frame.Copy.{copy_from-pixel}
use os_jisaku.Graphics.Frame.Fast.{IsBytes}
use os_jisaku.Graphics.Frame.Keeps.{Redrawn, copy_from-Redrawn}
use os_jisaku.Graphics.Frame.Pixels.{offset_of}
use os_jisaku.Graphics.Frame.Valid.{IsValid, byte_of}
use os_jisaku.Graphics.Geometry.{Rect, height, includes, is_crossing, size, top_left, width}
use os_jisaku.Graphics.Geometry.Laws.{includes-Inside}
use os_jisaku.Graphics.Layers.{
  Layer, draw_damage_to, draw_in, draw_layer, draw_layer_in, draw_to, first_drawn, in_stack,
  manager_area,
}
use os_jisaku.Graphics.Layers.Double.{damaged_part}
use os_jisaku.Graphics.Layers.Hiding.{first_drawn_drawable}
use os_jisaku.Graphics.Layers.Paint.{AllDrawable, point}
use os_jisaku.Graphics.Layers.Redraw.{draw_in_from}
use os_jisaku.Prelude.{
  Bool-cases, List, [], and_true, ap, arith, false, if◌then◌else◌, inl, inr, none, refl, true, ℕ,
  ◌<◌, ◌∙◌, ◌∷◌, ◌≡◌,
}
use os_jisaku.Prelude.Int.{int_laws, pos, ◌+ℤ◌, ◌-ℤ◌}

draw_layer_in-Redrawn :
    (rect : Rect) (dst : FrameBuffer) (l : Layer)
    → IsBytes dst.bytes
    → IsBytes l.buffer.bytes
    → Redrawn dst (draw_layer_in rect dst l)
unfolding draw_layer_in
draw_layer_in-Redrawn rect dst l hd hl = elim (Bool-cases (is_crossing rect (manager_area l))) [
  | inl meets ↦ rw meets (copy_from-Redrawn dst l.buffer _ l.transparent_color hd hl)
  | inr apart ↦ rw apart (dst.bytes, hd, refl)
]

draw_layer-Redrawn :
    (dst : FrameBuffer) (l : Layer)
    → IsBytes dst.bytes
    → IsBytes l.buffer.bytes
    → Redrawn dst (draw_layer dst l)
unfolding draw_layer copy_all_from
draw_layer-Redrawn dst l hd hl = copy_from-Redrawn dst l.buffer _ l.transparent_color hd hl

pub draw_to-Redrawn :
    (dst : FrameBuffer) (f : PixelFormat) (stack : List Layer)
    → AllDrawable f stack
    → IsBytes dst.bytes
    → Redrawn dst (draw_to dst stack)
unfolding draw_to
draw_to-Redrawn dst f [] all h = (dst.bytes, h, refl)
draw_to-Redrawn dst f (l ∷ ls) (d, all) h =
    let (b, hb, e) = draw_layer-Redrawn dst l h d.bytes in
    let (b', hb', e') = draw_to-Redrawn (record dst { bytes = b }) f ls all hb in
    (b', hb', ap (λ t. draw_to t ls) e ∙ e')

draw_in-Redrawn :
    (rect : Rect) (dst : FrameBuffer) (f : PixelFormat) (stack : List Layer)
    → AllDrawable f stack
    → IsBytes dst.bytes
    → Redrawn dst (draw_in rect dst stack)
unfolding draw_in
draw_in-Redrawn rect dst f [] all h = (dst.bytes, h, refl)
draw_in-Redrawn rect dst f (l ∷ ls) (d, all) h =
    let (b, hb, e) = draw_layer_in-Redrawn rect dst l h d.bytes in
    let (b', hb', e') = draw_in-Redrawn rect (record dst { bytes = b }) f ls all hb in
    (b', hb', ap (λ t. draw_in rect t ls) e ∙ e')

pub draw_damage_to-Redrawn :
    (dst : FrameBuffer) (id : ℕ) (rect : Rect) (f : PixelFormat) (stack : List Layer)
    → AllDrawable f (first_drawn rect stack)
    → IsBytes dst.bytes
    → Redrawn dst (draw_damage_to dst id rect stack)
unfolding draw_damage_to
draw_damage_to-Redrawn dst id rect f stack all h =
    elim (Bool-cases (in_stack id (first_drawn rect stack))) [
      | inl shown ↦ rw shown (draw_in-Redrawn rect dst f (first_drawn rect stack) all h)
      | inr hidden ↦ rw hidden (dst.bytes, h, refl)
    ]

-- Outside the damaged rectangle `draw_damage_to` changes nothing.
pub draw_damage_to-outside :
    (dst : FrameBuffer) (v : IsValid dst) (x y k : ℕ)
    → x < dst.horizontal_resolution
    → y < dst.vertical_resolution
    → k < 4
    → (id : ℕ) (rect : Rect) (stack : List Layer) → AllDrawable dst.pixel_format stack
    → includes rect (point x y) ≡ false
    → (draw_damage_to dst id rect stack).bytes (offset_of 4 dst.pixels_per_scan_line x y k)
      ≡ byte_of dst x y k
unfolding draw_damage_to
draw_damage_to-outside dst v x y k hx hy hk id rect stack all out =
    elim (Bool-cases (in_stack id (first_drawn rect stack))) [
      | inl shown ↦ rw shown (
          draw_in_from dst v x y k hx hy hk rect (first_drawn rect stack) dst.bytes
            (first_drawn_drawable dst.pixel_format rect stack all)
          ∙ rw out)
      | inr hidden ↦ rw hidden
    ]

-- The part that `damage` copies to the front is the damaged rectangle.
part-damaged : (rect : Rect) → part (damaged_part rect) ≡ rect
unfolding top_left size width height
part-damaged rect =
    let e : rect.left +ℤ (rect.right -ℤ rect.left) ≡ rect.right = omega int_laws in
    let f : rect.top +ℤ (rect.bottom -ℤ rect.top) ≡ rect.bottom = omega int_laws in
    λ i. record rect { right = e i; bottom = f i }

target_same : (rect : Rect) (x y : ℕ) → target_of (damaged_part rect) (point x y) ≡ point x y
target_same rect x y =
    let e : pos x -ℤ (top_left rect).x +ℤ (top_left rect).x ≡ pos x = omega int_laws in
    let f : pos y -ℤ (top_left rect).y +ℤ (top_left rect).y ≡ pos y = omega int_laws in
    λ i. record { x = e i; y = f i }

module _ (front : FrameBuffer) (v : IsValid front) (x y k : ℕ)
    (hx : x < front.horizontal_resolution) (hy : y < front.vertical_resolution) (hk : k < 4) where
  on_screen :
      includes (bounds front.horizontal_resolution front.vertical_resolution) (point x y) ≡ true
  on_screen =
      (includes-Inside (bounds front.horizontal_resolution front.vertical_resolution) (point x y)).1
        (omega arith, omega arith, omega arith, omega arith)

  -- A pixel after the copy of the rectangle to the front.
  pub copied_pixel :
      (b : Bytes)
      → IsBytes b
      → (rect : Rect)
      → (copy_from front (record front { bytes = b }) (damaged_part rect) none).1.bytes
          (offset_of 4 front.pixels_per_scan_line x y k)
        ≡ (if includes rect (point x y)
            then b (offset_of 4 front.pixels_per_scan_line x y k)
            else byte_of front x y k)
  copied_pixel b bytes rect =
      let e =
        (copy_from-pixel front (record front { bytes = b }) v
          (record { pitch = v.pitch; small = v.small }) bytes none tt refl (damaged_part rect) x y k
          (point x y) hx hy hk (target_same rect x y)).1 in
      rw (part-damaged rect, on_screen, and_true) at e
