-- ===== src/Graphics/Painter/Draw.antt =====
-- kernel/graphics/painter.cpp: what a `Painter` draws, with what it notes as damaged. The buffer that it
-- paints to is a parameter: its writer, its `copy_self_y` and its size.
use os_jisaku.Graphics.Color.{PixelColor}
use os_jisaku.Graphics.Draw.{
  Font, Write, draw_filled_rectangle, draw_rectangle, write_ascii, write_string,
}
use os_jisaku.Graphics.Geometry.{Rect, Vector2D, corners, size, top_left, with_size}
use os_jisaku.Graphics.Painter.{Painter, raw_damage}
use os_jisaku.Prelude.{List, length, ℕ, ◌*◌}
use os_jisaku.Prelude.Int.{pos, ℤ, ◌+ℤ◌, ◌-ℤ◌}

pub record Surface : Type 1 where
  pub Buffer : Type 0
  pub write : Write Buffer
  pub copy_self_y : Buffer → ℤ → ℤ → ℤ → Buffer
  pub size : Vector2D

module _ (s : Surface) (font : Font) where
  open s use {Buffer, write, copy_self_y}

  abbrev pub Painting : Type 0
  Painting = Buffer × Painter

  unfoldable pub paint_copy_y : ℤ → ℤ → ℤ → Painting → Painting
  unfolding raw_damage
  paint_copy_y dst_y src_y src_end_y (b, p) =
      let height = src_end_y -ℤ src_y in
      (
        copy_self_y b dst_y src_y height,
        raw_damage p
            (record { left = pos 0; top = dst_y; right = s.size.x; bottom = dst_y +ℤ height }),
      )

  unfoldable pub paint_rectangle : Rect → PixelColor → Painting → Painting
  unfolding raw_damage draw_rectangle top_left size
  paint_rectangle rect c (b, p) =
      (draw_rectangle write (top_left rect) (size rect) c b, raw_damage p rect)

  unfoldable pub paint_filled_rectangle : Rect → PixelColor → Painting → Painting
  unfolding raw_damage draw_filled_rectangle top_left size
  paint_filled_rectangle rect c (b, p) =
      (draw_filled_rectangle write (top_left rect) (size rect) c b, raw_damage p rect)

  unfoldable pub paint_ascii : Vector2D → ℕ → PixelColor → Painting → Painting
  unfolding raw_damage write_ascii with_size
  paint_ascii at ch c (b, p) = (
    write_ascii write font at.x at.y ch c b,
    raw_damage p (with_size at (record { x = pos 8; y = pos 16 })),
  )

  -- The loop of `draw_string` is that of `write_string`, and `i` ends as the length of the text.
  unfoldable pub paint_string : Vector2D → List ℕ → PixelColor → Painting → Painting
  unfolding raw_damage write_string with_size
  paint_string at text c (b, p) = (
    write_string write font at.x at.y text c b,
    raw_damage p (with_size at (record { x = pos (length text * 8); y = pos 16 })),
  )

  -- `pixel_writer`: all of the layer is damaged.
  unfoldable pub pixel_writer : Painting → Painting
  unfolding raw_damage corners
  pixel_writer (b, p) = (b, raw_damage p (corners (record { x = pos 0; y = pos 0 }) s.size))
