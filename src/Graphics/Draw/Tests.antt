-- ===== src/Graphics/Draw/Tests.antt =====
-- Drawing on concrete pictures and frame buffers.
use os_jisaku.Graphics.Color.{PixelColor, read_color, rgb_resv_8_bit_per_color}
use os_jisaku.Graphics.Draw.{Font, draw_filled_rectangle, draw_rectangle, write_string}
use os_jisaku.Graphics.Draw.Device.{get_pixel_at, write_device}
use os_jisaku.Graphics.Draw.Device.Rects.{draw_filled_rectangle-Shows, draw_rectangle-Shows}
use os_jisaku.Graphics.Draw.Device.Shown.{Shows}
use os_jisaku.Graphics.Draw.Outline.{on_outline}
use os_jisaku.Graphics.Draw.Pictures.{Picture, same_ℤ, write_picture}
use os_jisaku.Graphics.Draw.Shapes.{area}
use os_jisaku.Graphics.Draw.Text.{TextPixel, write_string-pixels}
use os_jisaku.Graphics.Geometry.{Vector2D}
use os_jisaku.Prelude.{[], arith, if◌then◌else◌, refl, ℕ, ◌%◌, ◌<◌, ◌==◌, ◌∷◌, ◌≡◌}
use os_jisaku.Prelude.Int.{int_laws, pos, ◌+ℤ◌, ◌-ℤ◌}

abbrev pub red : PixelColor
red = record { r = 255; g = 0; b = 0 }

abbrev pub black : PixelColor
black = record { r = 0; g = 0; b = 0 }

abbrev at_two : Vector2D
at_two = record { x = pos 1; y = pos 2 }

abbrev three_by_two : Vector2D
three_by_two = record { x = pos 3; y = pos 2 }

-- A font whose glyphs have one line of pixels, at the top.
abbrev pub bars : Font
bars = record { bytes = λ i. if i % 16 == 0 then 0x81 else 0; size = 4096 }

abbrev pub blank_picture : Picture
blank_picture x y = black

blank-Shows : Shows rgb_resv_8_bit_per_color 8 8 10 (λ i. 0) blank_picture
unfolding get_pixel_at read_color
blank-Shows x y hx hy = refl

draw_filled_rectangle-Shows_example :
    Shows rgb_resv_8_bit_per_color 8 8 10
      (draw_filled_rectangle
        (write_device rgb_resv_8_bit_per_color 10)
        at_two
        three_by_two
        red
        (λ i. 0))
      (λ x y. if area at_two three_by_two x y then red else black)
draw_filled_rectangle-Shows_example =
    draw_filled_rectangle-Shows rgb_resv_8_bit_per_color 8 8 10 (omega arith, omega arith) at_two
      three_by_two red (λ i. 0) blank_picture
      (omega int_laws, omega int_laws, omega int_laws, omega int_laws) blank-Shows

draw_rectangle-Shows_example :
    Shows rgb_resv_8_bit_per_color 8 8 10
      (draw_rectangle (write_device rgb_resv_8_bit_per_color 10) at_two three_by_two red (λ i. 0))
      (λ x y. if on_outline at_two three_by_two x y then red else black)
draw_rectangle-Shows_example =
    draw_rectangle-Shows rgb_resv_8_bit_per_color 8 8 10 (omega arith, omega arith) at_two
      three_by_two red (λ i. 0) blank_picture (omega arith) (omega arith)
      (omega int_laws, omega int_laws, omega int_laws, omega int_laws) blank-Shows

pub bars_bytes : (i : ℕ) → bars.bytes i < 256
bars_bytes i = ground arith

write_string-pixels_example :
    (TextPixel bars (pos 3) (pos 1) 0 (65 ∷ 66 ∷ []) (pos 10) (pos 1)
      → write_string write_picture bars
          (pos 3)
          (pos 1)
          (65 ∷ 66 ∷ [])
          red
          blank_picture
          (pos 10)
          (pos 1)
        ≡ red)
    × (¬ TextPixel bars (pos 3) (pos 1) 0 (65 ∷ 66 ∷ []) (pos 10) (pos 1)
        → write_string write_picture bars
            (pos 3)
            (pos 1)
            (65 ∷ 66 ∷ [])
            red
            blank_picture
            (pos 10)
            (pos 1)
          ≡ black)
write_string-pixels_example =
    write_string-pixels bars bars_bytes (pos 3) (pos 1) (65 ∷ 66 ∷ []) red blank_picture (pos 10)
      (pos 1)

-- The pixel of the example is one of the text's, and a run draws it.
bar_pixel :
    write_string write_picture bars
      (pos 3)
      (pos 1)
      (65 ∷ 66 ∷ [])
      red
      blank_picture
      (pos 10)
      (pos 1)
    ≡ red
unfolding write_string write_picture same_ℤ ◌+ℤ◌
bar_pixel = refl

outline_corner :
    draw_rectangle write_picture at_two three_by_two red blank_picture (pos 3) (pos 3) ≡ red
unfolding draw_rectangle write_picture same_ℤ ◌+ℤ◌ ◌-ℤ◌
outline_corner = refl
