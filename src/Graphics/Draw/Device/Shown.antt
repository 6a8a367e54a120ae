-- ===== src/Graphics/Draw/Device/Shown.antt =====
-- kernel/graphics/device_pixel_writer.hpp: drawing inside a frame buffer is drawing to the picture that it shows.
use native.Mathlib.Nat.{mod-eq_of_lt}
use os_jisaku.Graphics.Color.{
  Bytes, PixelColor, PixelFormat, bgr_resv_8_bit_per_color, read_color, rgb_resv_8_bit_per_color,
  write_to_buf,
}
use os_jisaku.Graphics.Color.Layout.{read_color-write_to_buf}
use os_jisaku.Graphics.Draw.Device.{get_pixel_at, pixel_offset, write_device}
use os_jisaku.Graphics.Draw.Pictures.{Picture, same_ℤ, write_picture}
use os_jisaku.Graphics.Draw.Shapes.{at_point_iff}
use os_jisaku.Graphics.Frame.Valid.{bytes_per_pixel-four, line-lt, lines-le}
use os_jisaku.Graphics.Geometry.{height, width}
use os_jisaku.Prelude.{
  Bool-cases, ap, arith, inl, inr, lt→ltb, ℕ, ◌%◌, ◌&&◌, ◌*◌, ◌+◌, ◌<◌, ◌^◌, ◌∙◌, ◌≡◌, ◌≢◌, ◌≤◌,
  ◌⊎◌,
}
use os_jisaku.Prelude.Int.{negsuc, pos, pos_part, ℤ, ◌<ℤ◌, ◌≤ℤ◌}

-- The pixels have numbers below 2 ^ 31, and a line holds a row of them.
abbrev pub Fits : ℕ → ℕ → ℕ → Type 0
Fits width height pixels_per_scan_line =
    (width ≤ pixels_per_scan_line) × (pixels_per_scan_line * height < 2 ^ 31)

-- The bytes hold the picture, on `width` by `height` pixels.
abbrev pub Shows : PixelFormat → ℕ → ℕ → ℕ → Bytes → Picture → Type 0
Shows format width height pixels_per_scan_line bytes picture =
    (x y : ℕ)
    → x < width
    → y < height
    → get_pixel_at format pixels_per_scan_line bytes (pos x) (pos y) ≡ picture (pos x) (pos y)

module _ (format : PixelFormat) (width height ppsl : ℕ) (fits : Fits width height ppsl) where
  offset_lem :
      (x y : ℕ)
      → x < width
      → y < height
      → pixel_offset format ppsl (pos x) (pos y) ≡ 4 * (ppsl * y + x)
  unfolding pixel_offset
  offset_lem x y hx hy =
      let inside = line-lt width height ppsl x y hx fits.0 hy in
      let lines = lines-le height ppsl (omega arith) in
      let ex : x % 2 ^ 32 ≡ x = mod-eq_of_lt {n = x} {m = 2 ^ 32} (omega arith) in
      let ey : y % 2 ^ 32 ≡ y = mod-eq_of_lt {n = y} {m = 2 ^ 32} (omega arith) in
      let ep : (ppsl * y + x) % 2 ^ 32 ≡ ppsl * y + x =
        mod-eq_of_lt {n = ppsl * y + x} {m = 2 ^ 32} (omega arith) in
      rw (bytes_per_pixel-four format, ex, ey, ep, lt→ltb (ppsl * y + x) (2 ^ 31) (omega arith))
        (mod-eq_of_lt {n = 4 * (ppsl * y + x)} {m = 2 ^ 64} (omega arith))

-- A line has its own numbers.
line_apart : (w p x x' y y' : ℕ) → x < w → w ≤ p → y < y' → p * y + x < p * y' + x'
line_apart w p x x' y y' hx hw h = grind arith

lt_cases : (a b : ℕ) → (a < b) ⊎ (b < a) ⊎ (a ≡ b)
lt_cases a b = ground arith

position_inj :
    (w p x x' y y' : ℕ) → x < w → x' < w → w ≤ p → p * y + x ≡ p * y' + x' → (x ≡ x') × (y ≡ y')
position_inj w p x x' y y' hx hx' hw e = elim (lt_cases y y') [
  | inl h ↦ absurd (omega (arith, line_apart w p x x' y y' hx hw h))
  | inr (inl h) ↦ absurd (omega (arith, line_apart w p x' x y' y hx' hw h))
  | inr (inr h) ↦ (omega (arith, ap (λ (t : ℕ). p * t) h), h)
]

-- Reading another pixel than the one that is written.
read_elsewhere :
    (format : PixelFormat) (bytes : Bytes) (p q : ℕ) (c : PixelColor)
    → q ≢ p
    → read_color format (write_to_buf format bytes (4 * p) c) (4 * q)
      ≡ read_color format bytes (4 * q)
unfolding read_color write_to_buf
read_elsewhere rgb_resv_8_bit_per_color bytes p q c ne = ground arith
read_elsewhere bgr_resv_8_bit_per_color bytes p q c ne = ground arith

-- A point of the screen.
abbrev pub OnScreen : ℕ → ℕ → ℤ → ℤ → Type 0
OnScreen width height x y = (pos 0 ≤ℤ x) × (x <ℤ pos width) × (pos 0 ≤ℤ y) × (y <ℤ pos height)

-- A write inside the screen.
module _ (format : PixelFormat) (width height ppsl : ℕ) (fits : Fits width height ppsl) where
  abbrev pub Shown : Bytes → Picture → Type 0
  Shown = Shows format width height ppsl

  write-Shown :
      (x y : ℕ) (c : PixelColor) (bytes : Bytes) (picture : Picture)
      → x < width
      → y < height
      → Shown bytes picture
      → Shown
          (write_device format ppsl (pos x) (pos y) c bytes)
          (write_picture (pos x) (pos y) c picture)
  unfolding get_pixel_at write_device write_picture
  write-Shown x y c bytes picture hx hy shown px py hpx hpy =
      let here = offset_lem format width height ppsl fits x y hx hy in
      let there = offset_lem format width height ppsl fits px py hpx hpy in
      rw (here, there)
        (elim (Bool-cases (same_ℤ (pos px) (pos x) && same_ℤ (pos py) (pos y))) [
          | inl e ↦
              let (a, b) = (at_point_iff (pos x) (pos y) (pos px) (pos py)).0 e in
              rw (e, ap pos_part a, ap pos_part b)
                (read_color-write_to_buf format bytes (4 * (ppsl * y + x)) c)
          | inr e ↦ rw e (
              read_elsewhere format bytes (ppsl * y + x) (ppsl * py + px) c (λ same.
                let (a, b) = position_inj width ppsl px x py y hpx hx fits.0 same in
                cc (e, (at_point_iff (pos x) (pos y) (pos px) (pos py)).1 (ap pos a, ap pos b)))
              ∙ (rw there at (shown px py hpx hpy)))
        ])

  -- A point that is written on the screen.
  pub write-OnScreen :
      (x y : ℤ) (c : PixelColor) (bytes : Bytes) (picture : Picture)
      → OnScreen width height x y
      → Shown bytes picture
      → Shown (write_device format ppsl x y c bytes) (write_picture x y c picture)
  write-OnScreen (negsuc x) y c bytes picture h = absurd (omega arith)
  write-OnScreen (pos x) (negsuc y) c bytes picture h = absurd (omega arith)
  write-OnScreen (pos x) (pos y) c bytes picture h =
      write-Shown x y c bytes picture (omega arith) (omega arith)
