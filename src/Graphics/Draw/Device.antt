-- ===== src/Graphics/Draw/Device.antt =====
-- kernel/graphics/device_pixel_writer.hpp: the writer of a frame buffer, and the picture that its bytes
-- show.
pub mod Shown
pub mod Rects
use os_jisaku.Graphics.Color.{
  Bytes, PixelColor, PixelFormat, bytes_per_pixel, read_color, write_to_buf,
}
use os_jisaku.Graphics.Draw.{Write}
use os_jisaku.Graphics.Frame.{to_u32}
use os_jisaku.Graphics.Frame.Blit.{memcpy}
use os_jisaku.Prelude.{if◌then◌else◌, ltb, ℕ, ◌%◌, ◌*◌, ◌+◌, ◌-◌, ◌^◌}
use os_jisaku.Prelude.Int.{ℤ}

-- `get_pixel_buf_at`, as the offset from `frame_buffer`: the position is a `uint32_t` that becomes an
-- `int` and then a `size_t`, so a negative one lies before the buffer.
unfoldable pub pixel_offset : PixelFormat → ℕ → ℤ → ℤ → ℕ
pixel_offset format pixels_per_scan_line x y =
    let pixel_position = (pixels_per_scan_line * to_u32 y + to_u32 x) % 2 ^ 32 in
    bytes_per_pixel format
    * (if ltb pixel_position (2 ^ 31) then pixel_position else pixel_position + (2 ^ 64 - 2 ^ 32))
    % 2 ^ 64

-- `write`.
unfoldable pub write_device : PixelFormat → ℕ → Write Bytes
unfolding pixel_offset
write_device format pixels_per_scan_line x y c bytes =
    write_to_buf format bytes (pixel_offset format pixels_per_scan_line x y) c

-- `get_pixel_at`.
unfoldable pub get_pixel_at : PixelFormat → ℕ → Bytes → ℤ → ℤ → PixelColor
unfolding pixel_offset
get_pixel_at format pixels_per_scan_line bytes x y =
    read_color format bytes (pixel_offset format pixels_per_scan_line x y)

-- `write_pixel_buf_at`: a pixel's bytes, copied.
unfoldable pub write_pixel_buf_at : PixelFormat → ℕ → ℤ → ℤ → Bytes → ℕ → Bytes → Bytes
unfolding pixel_offset
write_pixel_buf_at format pixels_per_scan_line x y buf at bytes =
    memcpy bytes (pixel_offset format pixels_per_scan_line x y) buf at (bytes_per_pixel format)
