-- ===== src/Graphics/Frame/Whole.antt =====
-- kernel/graphics/frame_buffer.cpp: a buffer copied as a whole, and lines moved inside a buffer.
use native.Mathlib.Nat.{mul_assoc}
use os_jisaku.Graphics.Color.{Bytes, bytes_per_pixel}
use os_jisaku.Graphics.Frame.{FrameBuffer, bytes_per_scan_line, frame_addr_at}
use os_jisaku.Graphics.Frame.Blit.{memcpy}
use os_jisaku.Graphics.Frame.Pixels.{offset_of}
use os_jisaku.Graphics.Frame.Valid.{IsValid, byte_of, bytes_per_pixel-four, line-lt}
use os_jisaku.Graphics.Geometry.{Vector2D}
use os_jisaku.Prelude.{
  ap, arith, length, le→leb, lt→ltb, sym, ℕ, ◌%◌, ◌*◌, ◌+◌, ◌-◌, ◌<◌, ◌^◌, ◌∙◌, ◌≡◌, ◌≤◌,
}
use os_jisaku.Prelude.Int.{negsuc, pos, ℤ}

unfoldable pub buffer_size : FrameBuffer → ℕ
buffer_size fb = bytes_per_pixel fb.pixel_format * fb.pixels_per_scan_line * fb.vertical_resolution

-- `forward`: as many bytes as the target has.
unfoldable pub forward : FrameBuffer → FrameBuffer → FrameBuffer
unfolding buffer_size
forward dst src = record dst { bytes = memcpy dst.bytes 0 src.bytes 0 (buffer_size dst) }

-- `clone`: a buffer of zeros that gets the bytes, whoever holds them.
unfoldable pub clone : FrameBuffer → FrameBuffer
unfolding buffer_size
clone fb = record fb { bytes = memcpy (λ i. 0) 0 fb.bytes 0 (buffer_size fb) }

abbrev pub line_start : ℤ → Vector2D
line_start y = record { x = pos 0; y = y }

-- An `int` as a `size_t`.
abbrev pub to_size : ℤ → ℕ
to_size (pos n) = n
to_size (negsuc n) = 2 ^ 64 - 1 - n

-- `copy_self_y`: `memmove` reads all before it writes.
unfoldable pub copy_self_y : FrameBuffer → ℤ → ℤ → ℤ → FrameBuffer
unfolding frame_addr_at bytes_per_scan_line
copy_self_y fb dst_y src_y length = record fb {
  bytes =
      memcpy fb.bytes (frame_addr_at fb (line_start dst_y)) fb.bytes
        (frame_addr_at fb (line_start src_y)) (to_size length * bytes_per_scan_line fb % 2 ^ 64);
}

-- A byte of a pixel lies in the buffer.
byte-lt : (w h p x y k : ℕ) → x < w → w ≤ p → y < h → k < 4 → offset_of 4 p x y k < 4 * p * h
byte-lt w h p x y k hx hw hy hk =
    let e = line-lt w h p x y hx hw hy in omega (arith, mul_assoc 4 p h)

memcpy_whole : (dst src : Bytes) (n j : ℕ) → j < n → memcpy dst 0 src 0 n j ≡ src j
memcpy_whole dst src n j h =
    let e : 0 + (j - 0) ≡ j = omega arith in
    rw (le→leb 0 j (omega arith), lt→ltb j (0 + n) (omega arith), e)

module _ (fb : FrameBuffer) (v : IsValid fb) (x y k : ℕ) (hx : x < fb.horizontal_resolution)
    (hy : y < fb.vertical_resolution) (hk : k < 4) where
  inside-size : offset_of 4 fb.pixels_per_scan_line x y k < buffer_size fb
  unfolding buffer_size
  inside-size = rw (bytes_per_pixel-four fb.pixel_format) (
      byte-lt fb.horizontal_resolution fb.vertical_resolution fb.pixels_per_scan_line x y k hx
        v.pitch hy hk)

  -- Every byte of every pixel is the source's after `forward`, for buffers with lines of one length.
  pub forward-byte :
      (src : FrameBuffer)
      → src.pixels_per_scan_line ≡ fb.pixels_per_scan_line
      → byte_of (forward fb src) x y k ≡ byte_of src x y k
  unfolding forward
  forward-byte src e =
      memcpy_whole fb.bytes src.bytes (buffer_size fb) (offset_of 4 fb.pixels_per_scan_line x y k)
        inside-size
      ∙ ap (λ p. src.bytes (offset_of 4 p x y k)) (sym e)

  -- A clone has the same pixels.
  pub clone-byte : byte_of (clone fb) x y k ≡ byte_of fb x y k
  unfolding clone
  clone-byte =
      memcpy_whole (λ i. 0) fb.bytes (buffer_size fb) (offset_of 4 fb.pixels_per_scan_line x y k)
        inside-size
