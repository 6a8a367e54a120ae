-- ===== src/Graphics/Draw/Device/Rects.antt =====
-- kernel/graphics/graphics.cpp: rectangles drawn to a frame buffer.
use os_jisaku.Graphics.Color.{Bytes, PixelColor, PixelFormat}
use os_jisaku.Graphics.Draw.{draw_filled_rectangle, draw_rectangle, for_up}
use os_jisaku.Graphics.Draw.Device.{write_device}
use os_jisaku.Graphics.Draw.Device.Shown.{Fits, Shows, write-OnScreen}
use os_jisaku.Graphics.Draw.Outline.{draw_rectangle-Paints, on_outline}
use os_jisaku.Graphics.Draw.Pictures.{Picture, write_picture}
use os_jisaku.Graphics.Draw.Shapes.{area, draw_filled_rectangle-Paints}
use os_jisaku.Graphics.Frame.Clip.{extent}
use os_jisaku.Graphics.Geometry.{Vector2D, height, width}
use os_jisaku.Prelude.{arith, if◌then◌else◌, suc, zero, ℕ, ◌+◌, ◌<◌, ◌∙◌, ◌≤◌}
use os_jisaku.Prelude.Int.{int_laws, one_sign, pos, pos_part, ◌+ℤ◌, ◌-ℤ◌, ◌<ℤ◌, ◌≤ℤ◌}

-- The rectangle lies on the screen.
abbrev pub RectOnScreen : ℕ → ℕ → Vector2D → Vector2D → Type 0
RectOnScreen width height at extent =
    (pos 0 ≤ℤ at.x)
    × (pos 0 ≤ℤ at.y)
    × (at.x +ℤ extent.x ≤ℤ pos width)
    × (at.y +ℤ extent.y ≤ℤ pos height)

module _ (format : PixelFormat) (width height ppsl : ℕ) (fits : Fits width height ppsl) where
  abbrev Shown : Bytes → Picture → Type 0
  Shown = Shows format width height ppsl

  -- A loop whose rounds keep the relation keeps it.
  for_up-Shown :
      (rounds first : ℕ) (f : ℕ → Bytes → Bytes) (g : ℕ → Picture → Picture)
      → ((i : ℕ)
          → first ≤ i
          → i < first + rounds
          → (bytes : Bytes) (picture : Picture) → Shown bytes picture
          → Shown (f i bytes) (g i picture))
      → (bytes : Bytes) (picture : Picture) → Shown bytes picture
      → Shown (for_up rounds first f bytes) (for_up rounds first g picture)
  unfolding for_up
  for_up-Shown zero first f g keep bytes picture h = h
  for_up-Shown (suc rounds) first f g keep bytes picture h =
      for_up-Shown rounds (first + 1) f g (λ i l u. keep i (omega arith) (omega arith))
        (f first bytes) (g first picture) (keep first (omega arith) (omega arith) bytes picture h)

  filled-Shown :
      (at extent : Vector2D) (c : PixelColor) (bytes : Bytes) (picture : Picture)
      → RectOnScreen width height at extent
      → Shown bytes picture
      → Shown
          (draw_filled_rectangle (write_device format ppsl) at extent c bytes)
          (draw_filled_rectangle write_picture at extent c picture)
  unfolding draw_filled_rectangle
  filled-Shown at extent c bytes picture h =
      for_up-Shown (pos_part extent.y) 0 _ _
        (λ dy _ v. for_up-Shown (pos_part extent.x) 0 _ _ (λ dx _ u b p.
          write-OnScreen format width height ppsl fits (at.x +ℤ pos dx) (at.y +ℤ pos dy) c b p
            (grind (int_laws, one_sign extent.x, one_sign extent.y))))
        bytes picture

  -- When the frame buffer shows a picture, and the rectangle lies on the screen, the frame
  -- buffer shows the picture with the rectangle's points in the colour after
  -- `draw_filled_rectangle` has drawn to it: inside the rectangle every pixel has the colour,
  -- and every other pixel of the screen is what it was.
  pub draw_filled_rectangle-Shows :
      (at extent : Vector2D) (c : PixelColor) (bytes : Bytes) (picture : Picture)
      → RectOnScreen width height at extent
      → Shows format width height ppsl bytes picture
      → Shows format width height ppsl
          (draw_filled_rectangle (write_device format ppsl) at extent c bytes)
          (λ x y. if area at extent x y then c else picture x y)
  draw_filled_rectangle-Shows at extent c bytes picture h shown x y hx hy =
      filled-Shown at extent c bytes picture h shown x y hx hy
      ∙ draw_filled_rectangle-Paints at extent c picture (pos x) (pos y)

  outline-Shown :
      (at extent : Vector2D) (c : PixelColor) (bytes : Bytes) (picture : Picture)
      → pos 0 <ℤ extent.x
      → pos 0 <ℤ extent.y
      → RectOnScreen width height at extent
      → Shown bytes picture
      → Shown
          (draw_rectangle (write_device format ppsl) at extent c bytes)
          (draw_rectangle write_picture at extent c picture)
  unfolding draw_rectangle
  outline-Shown at extent c bytes picture hw hh h shown =
      for_up-Shown (pos_part extent.y) 0 _ _
        (λ dy _ v b p s.
          write-OnScreen format width height ppsl fits (at.x +ℤ extent.x -ℤ pos 1) (at.y +ℤ pos dy)
            c _ _ (grind (int_laws, one_sign extent.x, one_sign extent.y))
            (write-OnScreen format width height ppsl fits at.x (at.y +ℤ pos dy) c b p
              (grind (int_laws, one_sign extent.x, one_sign extent.y)) s))
        _ _
        (for_up-Shown (pos_part extent.x) 0 _ _
          (λ dx _ u b p s.
            write-OnScreen format width height ppsl fits (at.x +ℤ pos dx)
              (at.y +ℤ extent.y -ℤ pos 1) c _ _
              (grind (int_laws, one_sign extent.x, one_sign extent.y))
              (write-OnScreen format width height ppsl fits (at.x +ℤ pos dx) at.y c b p
                (grind (int_laws, one_sign extent.x, one_sign extent.y)) s))
          bytes picture shown)

  -- When the frame buffer shows a picture, and a rectangle that is at least one pixel wide and
  -- high lies on the screen, `draw_rectangle` leaves the frame buffer showing the picture with
  -- the rectangle's outline, one pixel wide, in the colour, and everything else as it was.
  pub draw_rectangle-Shows :
      (at extent : Vector2D) (c : PixelColor) (bytes : Bytes) (picture : Picture)
      → pos 0 <ℤ extent.x
      → pos 0 <ℤ extent.y
      → RectOnScreen width height at extent
      → Shows format width height ppsl bytes picture
      → Shows format width height ppsl
          (draw_rectangle (write_device format ppsl) at extent c bytes)
          (λ x y. if on_outline at extent x y then c else picture x y)
  draw_rectangle-Shows at extent c bytes picture hw hh h shown x y hx hy =
      outline-Shown at extent c bytes picture hw hh h shown x y hx hy
      ∙ draw_rectangle-Paints at extent c hw hh picture (pos x) (pos y)
