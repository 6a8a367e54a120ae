-- ===== src/Graphics/Draw.antt =====
-- kernel/graphics/graphics.cpp and font.cpp: drawing through a `PixelWriter`. A writer is what it writes
-- to and its `write`, so the same loops draw to a picture, to a frame buffer and to a list of writes.
pub mod Pictures
pub mod Shapes
pub mod Pairs
pub mod Outline
pub mod Text
pub mod Device
pub mod Tests
use os_jisaku.Graphics.Color.{PixelColor}
use os_jisaku.Graphics.Geometry.{Vector2D, size}
use os_jisaku.Prelude.{
  Bool, List, Option, [], bit_and, if◌then◌else◌, leb, ltb, none, not, some, suc, zero, ℕ, ◌%◌, ◌*◌,
  ◌+◌, ◌-◌, ◌==◌, ◌^◌, ◌∷◌,
}
use os_jisaku.Prelude.Int.{pos, pos_part, ℤ, ◌+ℤ◌, ◌-ℤ◌}

-- `for (int i = first; i < first + rounds; ++i)`.
unfoldable pub for_up {ℓ} : {S : Type ℓ} → ℕ → ℕ → (ℕ → S → S) → S → S
for_up zero first body s = s
for_up (suc rounds) first body s = for_up rounds (first + 1) body (body first s)

-- `PixelWriter::write`.
abbrev pub Write : Type 0 → Type 0
Write S = ℤ → ℤ → PixelColor → S → S

module _ {S : Type 0} (write : Write S) where
  unfoldable pub draw_filled_rectangle : Vector2D → Vector2D → PixelColor → S → S
  unfolding for_up
  draw_filled_rectangle at size c =
      for_up (pos_part size.y) 0
        λ dy. for_up (pos_part size.x) 0 λ dx. write (at.x +ℤ pos dx) (at.y +ℤ pos dy) c

  -- The rounds of the two loops of `draw_rectangle`.
  abbrev pub draw_across : Vector2D → Vector2D → PixelColor → ℕ → S → S
  draw_across at size c dx s =
      write (at.x +ℤ pos dx) (at.y +ℤ size.y -ℤ pos 1) c (write (at.x +ℤ pos dx) at.y c s)

  abbrev pub draw_down : Vector2D → Vector2D → PixelColor → ℕ → S → S
  draw_down at size c dy s =
      write (at.x +ℤ size.x -ℤ pos 1) (at.y +ℤ pos dy) c (write at.x (at.y +ℤ pos dy) c s)

  unfoldable pub draw_rectangle : Vector2D → Vector2D → PixelColor → S → S
  unfolding for_up
  draw_rectangle at size c s =
      for_up (pos_part size.y) 0 (draw_down at size c)
        (for_up (pos_part size.x) 0 (draw_across at size c) s)

-- The font that the build links in: the bytes from `_binary_hankaku_bin_start` on, and their number.
pub record Font : Type 0 where
  pub bytes : ℕ → ℕ
  pub size : ℕ

-- `16 * static_cast<unsigned int>(c)` of a character's byte: `char` is signed, so the upper half of
-- the bytes stands for the negative numbers.
unfoldable pub font_index : ℕ → ℕ
font_index c = if ltb c 128 then 16 * c else 16 * (c + 2 ^ 32 - 256) % 2 ^ 32

-- `get_font`, as the offset of the glyph.
unfoldable pub get_font : Font → ℕ → Option ℕ
unfolding font_index
get_font font c = if leb font.size (font_index c) then none else some (font_index c)

-- `(line << dx & 0b1000'0000) != 0`.
unfoldable pub font_bit : ℕ → ℕ → Bool
font_bit line dx = not (bit_and (line * 2 ^ dx) 0b10000000 == 0)

module _ {S : Type 0} (write : Write S) (font : Font) where
  abbrev pub draw_glyph : ℤ → ℤ → ℕ → PixelColor → S → S
  draw_glyph x y glyph color = for_up 16 0 λ dy. for_up 8 0 λ dx s.
      if font_bit (font.bytes (glyph + dy)) dx then write (x +ℤ pos dx) (y +ℤ pos dy) color s else s

  -- Nothing is written for a character without a glyph.
  abbrev pub write_glyph : ℤ → ℤ → Option ℕ → PixelColor → S → S
  write_glyph x y none color s = s
  write_glyph x y (some glyph) color s = draw_glyph x y glyph color s

  unfoldable pub write_ascii : ℤ → ℤ → ℕ → PixelColor → S → S
  unfolding for_up font_bit get_font
  write_ascii x y c = write_glyph x y (get_font font c)

  -- The loop of `write_string` from the character `i` on; a text has no 0 in it.
  abbrev pub write_from : ℤ → ℤ → ℕ → List ℕ → PixelColor → S → S
  write_from x y i [] color s = s
  write_from x y i (c ∷ text) color s =
      write_from x y (i + 1) text color (write_ascii (x +ℤ pos (i * 8)) y c color s)

  unfoldable pub write_string : ℤ → ℤ → List ℕ → PixelColor → S → S
  unfolding write_ascii
  write_string x y text color = write_from x y 0 text color
