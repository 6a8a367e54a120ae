-- ===== src/Graphics/Frame/Valid.antt =====
-- Frame buffers whose addresses stay inside, and the loops of a copy between them as one block copy.
use native.Mathlib.Nat.{mod-eq_of_lt}
use os_jisaku.Graphics.Color.{
  Bytes, PixelColor, PixelFormat, bgr_resv_8_bit_per_color, bytes_per_pixel,
  rgb_resv_8_bit_per_color, write_to_buf,
}
use os_jisaku.Graphics.Frame.{Coords, FrameBuffer, bytes_per_scan_line, copied_bytes, frame_addr_at}
use os_jisaku.Graphics.Frame.Blit.{
  copy_opaque, copy_transparent, equal_bytes, for_rows, memcpy, transparent_row,
}
use os_jisaku.Graphics.Frame.Fast.{IsBytes, copy_transparent_bpp_4-eq}
use os_jisaku.Graphics.Frame.Pixels.{
  CopiesRow, memcpy-CopiesRow, offset_of, transparent_row-CopiesRow,
}
use os_jisaku.Graphics.Geometry.{Vector2D}
use os_jisaku.Prelude.{
  Bool, Option, ap, arith, false, if◌then◌else◌, none, refl, some, ℕ, ◌*◌, ◌+◌, ◌<◌, ◌^◌, ◌≡◌, ◌≤◌,
}
use os_jisaku.Prelude.Int.{negsuc, pos, pos_part, ℤ, ◌<ℤ◌, ◌≤ℤ◌}

-- A frame buffer as the kernel makes them: lines no shorter than the picture, and less than 2 ^ 31
-- pixels.
pub record IsValid (fb : FrameBuffer) : Type 0 where
  pub pitch : fb.horizontal_resolution ≤ fb.pixels_per_scan_line
  pub small : fb.pixels_per_scan_line * fb.vertical_resolution < 2 ^ 31

-- The components of a colour are bytes.
abbrev pub IsColor : Option PixelColor → Type 0
IsColor none = Unit {0}
IsColor (some c) = (c.r < 2 ^ 8) × (c.g < 2 ^ 8) × (c.b < 2 ^ 8)

-- Byte `k` of a pixel of the picture.
abbrev pub byte_of : FrameBuffer → ℕ → ℕ → ℕ → ℕ
byte_of fb x y k = fb.bytes (offset_of 4 fb.pixels_per_scan_line x y k)

-- The source has the transparent colour at the offset `i`.
abbrev pub skips : FrameBuffer → Option PixelColor → ℕ → Bool
skips src none i = false
skips src (some c) i = equal_bytes src.bytes i (write_to_buf src.pixel_format (λ j. 0) 0 c) 0 4

pub bytes_per_pixel-four : (f : PixelFormat) → bytes_per_pixel f ≡ 4
unfolding bytes_per_pixel
bytes_per_pixel-four rgb_resv_8_bit_per_color = refl
bytes_per_pixel-four bgr_resv_8_bit_per_color = refl

pub line-lt : (w h p x y : ℕ) → x < w → w ≤ p → y < h → p * y + x < p * h
line-lt w h p x y hx hw hy = grind arith

pub lines-le : (h p : ℕ) → 0 < p → h ≤ p * h
lines-le h p hp = grind arith

pub frame_addr_at-offset :
    (fb : FrameBuffer) (x y : ℤ)
    → IsValid fb
    → (pos 0 ≤ℤ x) × (x <ℤ pos fb.horizontal_resolution)
    → (pos 0 ≤ℤ y) × (y <ℤ pos fb.vertical_resolution)
    → frame_addr_at fb (record { x = x; y = y })
      ≡ 4 * (fb.pixels_per_scan_line * pos_part y + pos_part x)
unfolding frame_addr_at
frame_addr_at-offset fb (negsuc x) y v (low, high) hy = absurd (omega arith)
frame_addr_at-offset fb (pos x) (negsuc y) v hx (low, high) = absurd (omega arith)
frame_addr_at-offset fb (pos x) (pos y) v (_, hx) (_, hy) =
    let in_picture =
      line-lt fb.horizontal_resolution fb.vertical_resolution fb.pixels_per_scan_line x y
        (omega arith) v.pitch (omega arith) in
    let low = v.small in
    let lines = lines-le fb.vertical_resolution fb.pixels_per_scan_line (omega (arith, v.pitch)) in
    rw (
      bytes_per_pixel-four fb.pixel_format,
      mod-eq_of_lt {n = x} {m = 2 ^ 32} (omega (arith, v.pitch)),
      mod-eq_of_lt {n = y} {m = 2 ^ 32} (omega arith),
      mod-eq_of_lt {n = fb.pixels_per_scan_line * y + x} {m = 2 ^ 32} (omega arith),
    )

write_to_buf-IsBytes :
    (f : PixelFormat) (c : PixelColor) → IsColor (some c) → IsBytes (write_to_buf f (λ j. 0) 0 c)
unfolding write_to_buf
write_to_buf-IsBytes rgb_resv_8_bit_per_color c h i = ground arith
write_to_buf-IsBytes bgr_resv_8_bit_per_color c h i = ground arith

-- The loops of `copied_bytes` as one block copy, whatever the transparent colour.
abbrev pub AsBlit : FrameBuffer → FrameBuffer → Coords → Option PixelColor → Type 0
AsBlit dst src c tc =
    (row : ℕ → ℕ → Bytes → Bytes) × CopiesRow src.bytes (skips src tc) 4 (pos_part c.size.x) row
    × (copied_bytes dst src c tc
        ≡ for_rows row (4 * dst.pixels_per_scan_line) (4 * src.pixels_per_scan_line)
            (pos_part c.size.y) (frame_addr_at dst c.to_pos) (frame_addr_at src c.src_pos)
            dst.bytes)

pub copied_bytes-AsBlit :
    (dst src : FrameBuffer) (c : Coords) (tc : Option PixelColor)
    → IsBytes src.bytes
    → IsColor tc
    → src.pixel_format ≡ dst.pixel_format
    → AsBlit dst src c tc
unfolding copied_bytes copy_opaque copy_transparent bytes_per_scan_line
copied_bytes-AsBlit dst src c none v ok same = (
  λ d s to. memcpy to d src.bytes s (4 * pos_part c.size.x),
  memcpy-CopiesRow src.bytes 4 (pos_part c.size.x),
  rw (bytes_per_pixel-four dst.pixel_format, bytes_per_pixel-four src.pixel_format),
)
copied_bytes-AsBlit dst src c (some color) v ok same = (
  transparent_row src.bytes (write_to_buf src.pixel_format (λ j. 0) 0 color) 4 (pos_part c.size.x),
  transparent_row-CopiesRow src.bytes (write_to_buf src.pixel_format (λ j. 0) 0 color) 4
      (pos_part c.size.x),
  rw
      (
        ap (λ f. write_to_buf f (λ j. 0) 0 color) same,
        bytes_per_pixel-four dst.pixel_format,
        bytes_per_pixel-four src.pixel_format,
      )
      (copy_transparent_bpp_4-eq src.bytes (write_to_buf dst.pixel_format (λ j. 0) 0 color) v
        (write_to_buf-IsBytes dst.pixel_format color ok) dst.bytes (frame_addr_at dst c.to_pos)
        (frame_addr_at src c.src_pos) c.size (4 * dst.pixels_per_scan_line)
        (4 * src.pixels_per_scan_line)),
)

-- What a byte of the target's pixel becomes that gets the source's pixel at `p`.
abbrev pub blended : FrameBuffer → Option PixelColor → Vector2D → ℕ → ℕ → ℕ
blended src tc p k old =
    if skips src tc (offset_of 4 src.pixels_per_scan_line (pos_part p.x) (pos_part p.y) 0)
    then old
    else byte_of src (pos_part p.x) (pos_part p.y) k
