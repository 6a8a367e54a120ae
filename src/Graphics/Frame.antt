-- ===== src/Graphics/Frame.antt =====
-- kernel/graphics/frame_buffer.hpp and frame_buffer.cpp: copies between frame buffers. A frame buffer
-- holds the bytes from its `frame_buffer` pointer on, by offset; two buffers never share memory.
pub mod Blit
pub mod Clip
pub mod Rows
pub mod Fast
pub mod Pixels
pub mod Valid
pub mod Block
pub mod Copy
pub mod Whole
pub mod Keeps
mod Tests
use os_jisaku.Errors.{Code, success, unknown_pixel_format}
use os_jisaku.Graphics.Color.{
  Bytes, PixelColor, PixelFormat, bytes_per_pixel, same_format, write_to_buf,
}
use os_jisaku.Graphics.Frame.Blit.{copy_opaque, copy_transparent, copy_transparent_bpp_4}
use os_jisaku.Graphics.Geometry.{Vector2D, map_with, max_vec, min_vec, size, sub}
use os_jisaku.Prelude.{
  Option, if◌then◌else◌, none, not, some, ℕ, ◌%◌, ◌*◌, ◌+◌, ◌-◌, ◌==◌, ◌^◌, ◌||◌,
}
use os_jisaku.Prelude.Int.{leb_ℤ, ltb_ℤ, negsuc, pos, ℤ, ◌+ℤ◌, ◌-ℤ◌}

-- `FrameBufferConfig`; `none` is the null pointer, `some` what the memory behind the pointer holds.
pub record FrameBufferConfig : Type 0 where
  pub frame_buffer : Option Bytes
  pub pixels_per_scan_line : ℕ
  pub horizontal_resolution : ℕ
  pub vertical_resolution : ℕ
  pub pixel_format : PixelFormat

pub record FrameBuffer : Type 0 where
  pub bytes : Bytes
  pub pixels_per_scan_line : ℕ
  pub horizontal_resolution : ℕ
  pub vertical_resolution : ℕ
  pub pixel_format : PixelFormat

abbrev with_memory : FrameBufferConfig → Option Bytes → FrameBuffer
with_memory config none = record {
  bytes = λ i. 0;
  pixels_per_scan_line = config.horizontal_resolution;
  horizontal_resolution = config.horizontal_resolution;
  vertical_resolution = config.vertical_resolution;
  pixel_format = config.pixel_format;
}
with_memory config (some bytes) = record {
  bytes = bytes;
  pixels_per_scan_line = config.pixels_per_scan_line;
  horizontal_resolution = config.horizontal_resolution;
  vertical_resolution = config.vertical_resolution;
  pixel_format = config.pixel_format;
}

-- The constructor: without memory of its own a buffer of zeros, with no padding in its lines.
pub new : FrameBufferConfig → FrameBuffer
new config = with_memory config config.frame_buffer

-- `size`.
unfoldable pub frame_size : FrameBuffer → Vector2D
frame_size fb = record { x = pos fb.horizontal_resolution; y = pos fb.vertical_resolution }

unfoldable pub bytes_per_scan_line : FrameBuffer → ℕ
bytes_per_scan_line fb = bytes_per_pixel fb.pixel_format * fb.pixels_per_scan_line

-- An `int` as a `uint32_t`.
abbrev pub to_u32 : ℤ → ℕ
to_u32 (pos n) = n % 2 ^ 32
to_u32 (negsuc n) = 2 ^ 32 - 1 - n % 2 ^ 32

-- `frame_addr_at`, as the offset from `frame_buffer`: the sum in the brackets is a `uint32_t`.
unfoldable pub frame_addr_at : FrameBuffer → Vector2D → ℕ
frame_addr_at fb p =
    bytes_per_pixel fb.pixel_format * ((fb.pixels_per_scan_line * to_u32 p.y + to_u32 p.x) % 2 ^ 32)

-- What `adjust_coords` changes.
pub record Coords : Type 0 where
  pub to_pos : Vector2D
  pub src_pos : Vector2D
  pub size : Vector2D

unfoldable pub decrease_d : ℤ → ℤ → ℤ
decrease_d v d = if ltb_ℤ d (pos 0) then v +ℤ d else v

unfoldable pub increase_d : ℤ → ℤ → ℤ
increase_d v d = if ltb_ℤ d (pos 0) then v -ℤ d else v

abbrev zero_vec : Vector2D
zero_vec = record { x = pos 0; y = pos 0 }

unfoldable pub adjust_coords : Vector2D → Vector2D → Coords → Coords
unfolding map_with max_vec min_vec sub
adjust_coords to_size src_size c =
    let size1 = map_with decrease_d c.size c.src_pos in
    let to1 = map_with increase_d c.to_pos c.src_pos in
    let src1 = max_vec c.src_pos zero_vec in
    let size2 = map_with decrease_d size1 to1 in
    let src2 = map_with increase_d src1 to1 in
    let to2 = max_vec to1 zero_vec in
    let max_size = min_vec (sub to_size to2) (sub src_size src2) in
    record { to_pos = to2; src_pos = src2; size = min_vec size2 max_size }

-- The bytes of the target after the copy of a part that is not empty.
unfoldable pub copied_bytes : FrameBuffer → FrameBuffer → Coords → Option PixelColor → Bytes
copied_bytes dst src c none =
    copy_opaque dst.bytes (frame_addr_at dst c.to_pos) src.bytes (frame_addr_at src c.src_pos)
      c.size (bytes_per_pixel dst.pixel_format) (bytes_per_scan_line dst) (bytes_per_scan_line src)
copied_bytes dst src c (some transparent_color) =
    let tc = write_to_buf dst.pixel_format (λ i. 0) 0 transparent_color in
    if bytes_per_pixel dst.pixel_format == 4
    then copy_transparent_bpp_4 dst.bytes (frame_addr_at dst c.to_pos) src.bytes
        (frame_addr_at src c.src_pos) tc c.size (bytes_per_scan_line dst) (bytes_per_scan_line src)
    else copy_transparent dst.bytes (frame_addr_at dst c.to_pos) src.bytes
        (frame_addr_at src c.src_pos) tc c.size (bytes_per_pixel dst.pixel_format)
        (bytes_per_scan_line dst) (bytes_per_scan_line src)

-- The longer `copy_from`: the error code and the target afterwards.
unfoldable pub copy_from :
    FrameBuffer → FrameBuffer → Coords → Option PixelColor → Code × FrameBuffer
unfolding same_format frame_size
copy_from dst src c transparent_color =
    if not (same_format src.pixel_format dst.pixel_format)
    then (unknown_pixel_format, dst)
    else (let adjusted = adjust_coords (frame_size dst) (frame_size src) c in
        if leb_ℤ adjusted.size.x (pos 0) || leb_ℤ adjusted.size.y (pos 0)
        then (success, dst)
        else (success, record dst { bytes = copied_bytes dst src adjusted transparent_color }))

-- The shorter `copy_from`: the whole source.
unfoldable pub copy_all_from :
    FrameBuffer → FrameBuffer → Vector2D → Option PixelColor → Code × FrameBuffer
unfolding copy_from
copy_all_from dst src to_pos transparent_color =
    copy_from dst src (record { to_pos = to_pos; src_pos = zero_vec; size = frame_size src })
      transparent_color
