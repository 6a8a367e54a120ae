-- ===== src/Graphics/Color.antt =====
-- kernel/graphics/pixel_color.hpp, frame_buffer_config.hpp and device_pixel_writer: colours, pixel
-- formats and how a colour is laid out in memory.
pub mod Layout
use os_jisaku.Prelude.{Bool, bit_and, false, if◌then◌else◌, true, ℕ, ◌&&◌, ◌+◌, ◌/◌, ◌==◌, ◌^◌}

pub record PixelColor : Type 0 where
  pub r : ℕ
  pub g : ℕ
  pub b : ℕ

-- The constructor from 0xRRGGBB.
unfoldable pub from_u32 : ℕ → PixelColor
from_u32 c = record {
  r = bit_and (c / 2 ^ 16) 0xff;
  g = bit_and (c / 2 ^ 8) 0xff;
  b = bit_and c 0xff;
}

-- `operator==`.
unfoldable pub same_color : PixelColor → PixelColor → Bool
same_color c d = c.r == d.r && c.g == d.g && c.b == d.b

pub data PixelFormat : Type 0 where
  rgb_resv_8_bit_per_color bgr_resv_8_bit_per_color : PixelFormat

unfoldable pub same_format : PixelFormat → PixelFormat → Bool
same_format rgb_resv_8_bit_per_color rgb_resv_8_bit_per_color = true
same_format bgr_resv_8_bit_per_color bgr_resv_8_bit_per_color = true
same_format _ _ = false

-- `get_suitable_device_pixel_writer_traits(format).bytes_per_pixel`; both writers use 4.
unfoldable pub bytes_per_pixel : PixelFormat → ℕ
bytes_per_pixel rgb_resv_8_bit_per_color = 4
bytes_per_pixel bgr_resv_8_bit_per_color = 4

-- Memory from a pointer on, by the offset from it.
abbrev pub Bytes : Type 0
Bytes = ℕ → ℕ

-- `buf[i] = v`.
abbrev pub store : Bytes → ℕ → ℕ → Bytes
store bytes i v j = if j == i then v else bytes j

-- `write_to_buf` of the two writers, at the offset `p`.
unfoldable pub write_to_buf : PixelFormat → Bytes → ℕ → PixelColor → Bytes
write_to_buf rgb_resv_8_bit_per_color bytes p c =
    store (store (store (store bytes p c.r) (p + 1) c.g) (p + 2) c.b) (p + 3) 0
write_to_buf bgr_resv_8_bit_per_color bytes p c =
    store (store (store (store bytes p c.b) (p + 1) c.g) (p + 2) c.r) (p + 3) 0

-- `get_pixel_at` of the two writers, at the offset that `get_pixel_buf_at` gives.
unfoldable pub read_color : PixelFormat → Bytes → ℕ → PixelColor
read_color rgb_resv_8_bit_per_color bytes p = record {
  r = bytes p;
  g = bytes (p + 1);
  b = bytes (p + 2);
}
read_color bgr_resv_8_bit_per_color bytes p = record {
  r = bytes (p + 2);
  g = bytes (p + 1);
  b = bytes p;
}
