-- ===== src/Graphics/Frame/Tests.antt =====
-- Runs of the copies on pictures of a few pixels, and the theorems at these inputs.
use os_jisaku.Errors.{success}
use os_jisaku.Graphics.Color.{Bytes, bytes_per_pixel, rgb_resv_8_bit_per_color}
use os_jisaku.Graphics.Frame.{
  Coords, FrameBuffer, adjust_coords, bytes_per_scan_line, copied_bytes, copy_from, decrease_d,
  frame_addr_at, increase_d,
}
use os_jisaku.Graphics.Frame.Blit.{copy_opaque, copy_transparent, copy_transparent_bpp_4}
use os_jisaku.Graphics.Frame.Clip.{adjust_coords-clips, adjusted, part, target_of}
use os_jisaku.Graphics.Frame.Copy.{copy_from-pixel}
use os_jisaku.Graphics.Frame.Fast.{copy_transparent_bpp_4-eq}
use os_jisaku.Graphics.Frame.Valid.{IsValid}
use os_jisaku.Graphics.Geometry.{Vector2D, includes}
use os_jisaku.Prelude.{arith, none, refl, true, ◌%◌, ◌+◌, ◌≡◌}
use os_jisaku.Prelude.Int.{max_ℤ, min_ℤ, negsuc, pos, ℤ, ◌+ℤ◌, ◌-ℤ◌}

abbrev marked : Bytes
marked i = 7 + i % 50

abbrev picture : FrameBuffer
picture = record {
  bytes = marked;
  pixels_per_scan_line = 4;
  horizontal_resolution = 3;
  vertical_resolution = 3;
  pixel_format = rgb_resv_8_bit_per_color;
}

abbrev target : FrameBuffer
target = record {
  bytes = λ i. 0;
  pixels_per_scan_line = 2;
  horizontal_resolution = 2;
  vertical_resolution = 2;
  pixel_format = rgb_resv_8_bit_per_color;
}

abbrev at : ℤ → ℤ → Vector2D
at x y = record { x = x; y = y }

-- Half of the part lies left of the target.
abbrev over_edge : Coords
over_edge = record {
  to_pos = at (negsuc 0) (pos 0);
  src_pos = at (pos 1) (pos 1);
  size = at (pos 2) (pos 2);
}

picture-IsValid : IsValid picture
picture-IsValid = record { pitch = omega arith; small = omega arith }

target-IsValid : IsValid target
target-IsValid = record { pitch = omega arith; small = omega arith }

-- The pixel (2, 1) of the source lands on (0, 0), a byte at a time.
copied_byte : (copy_from target picture over_edge none).1.bytes 1 ≡ 32
unfolding copy_from adjust_coords min_ℤ ◌-ℤ◌ increase_d max_ℤ decrease_d ◌+ℤ◌ copied_bytes
    copy_opaque frame_addr_at bytes_per_pixel bytes_per_scan_line
copied_byte = refl

adjust_coords-clips_example :
    (includes (part (adjusted 2 2 3 3 over_edge)) (at (pos 2) (pos 1)) ≡ true)
    × (target_of (adjusted 2 2 3 3 over_edge) (at (pos 2) (pos 1)) ≡ at (pos 0) (pos 0))
unfolding includes ◌+ℤ◌ ◌-ℤ◌
adjust_coords-clips_example = adjust_coords-clips 2 2 3 3 over_edge (at (pos 2) (pos 1))

copy_from-pixel_example :
    ((copy_from target picture over_edge none).0 ≡ success)
    × ((copy_from target picture over_edge none).1.bytes 1 ≡ 32)
unfolding includes ◌+ℤ◌ ◌-ℤ◌
copy_from-pixel_example =
    copy_from-pixel target picture target-IsValid picture-IsValid (λ i. omega arith) none _ refl
      over_edge 0 0 1 (at (pos 2) (pos 1)) (omega arith) (omega arith) (omega arith) refl

copy_transparent_bpp_4-eq_example :
    copy_transparent_bpp_4 (λ i. 0) 0 marked 8 (λ i. 9) (at (pos 2) (pos 2)) 8 16
    ≡ copy_transparent (λ i. 0) 0 marked 8 (λ i. 9) (at (pos 2) (pos 2)) 4 8 16
copy_transparent_bpp_4-eq_example =
    copy_transparent_bpp_4-eq marked (λ i. 9) (λ i. omega arith) (λ i. omega arith) (λ i. 0) 0 8
      (at (pos 2) (pos 2)) 8 16
