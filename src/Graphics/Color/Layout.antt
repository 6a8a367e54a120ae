-- ===== src/Graphics/Color/Layout.antt =====
-- What a pixel holds after a colour has been written.
use os_jisaku.Graphics.Color.{
  Bytes, PixelColor, PixelFormat, bgr_resv_8_bit_per_color, bytes_per_pixel, read_color,
  rgb_resv_8_bit_per_color, same_color, same_format, write_to_buf,
}
use os_jisaku.Prelude.{arith, true, ℕ, ◌+◌, ◌<◌, ◌↔◌, ◌≡◌, ◌≤◌, ◌⊎◌}

-- Reading a pixel gives the colour that was written there, in either format.
pub read_color-write_to_buf :
    (format : PixelFormat) (bytes : Bytes) (p : ℕ) (c : PixelColor)
    → read_color format (write_to_buf format bytes p c) p ≡ c
unfolding read_color write_to_buf
read_color-write_to_buf rgb_resv_8_bit_per_color bytes p c = ground arith
read_color-write_to_buf bgr_resv_8_bit_per_color bytes p c = ground arith

-- A write changes the bytes of its own pixel only.
pub write_to_buf_elsewhere :
    (format : PixelFormat) (bytes : Bytes) (p : ℕ) (c : PixelColor) (q : ℕ)
    → (q < p) ⊎ (p + bytes_per_pixel format ≤ q)
    → write_to_buf format bytes p c q ≡ bytes q
unfolding write_to_buf bytes_per_pixel
write_to_buf_elsewhere rgb_resv_8_bit_per_color bytes p c q far = ground arith
write_to_buf_elsewhere bgr_resv_8_bit_per_color bytes p c q far = ground arith

pub same_color_iff : (c d : PixelColor) → (same_color c d ≡ true) ↔ (c ≡ d)
unfolding same_color
same_color_iff c d = (λ h. ground arith, λ h. ground arith)

pub same_format_iff : (a b : PixelFormat) → (same_format a b ≡ true) ↔ (a ≡ b)
unfolding same_format
same_format_iff a b = (λ h. ground arith, λ h. ground arith)
