-- ===== src/Graphics/Frame/Block.antt =====
-- `copied_bytes` for a part that lies in both buffers, by pixels.
use os_jisaku.Graphics.Color.{Bytes, PixelColor}
use os_jisaku.Graphics.Frame.{Coords, FrameBuffer, copied_bytes, frame_addr_at}
use os_jisaku.Graphics.Frame.Clip.{bounds, part, target_of}
use os_jisaku.Graphics.Frame.Fast.{IsBytes}
use os_jisaku.Graphics.Frame.Pixels.{
  CopiesRow, blit, blit_inside, blit_outside, in_pixels, offset_of,
}
use os_jisaku.Graphics.Frame.Valid.{
  IsColor, IsValid, blended, byte_of, copied_bytes-AsBlit, frame_addr_at-offset, skips,
}
use os_jisaku.Graphics.Geometry.{Vector2D, add, corners, includes}
use os_jisaku.Graphics.Geometry.Laws.{Covers, Inside, includes-Inside}
use os_jisaku.Prelude.{
  &&-iff_four, Bool-cases, Bool-ext, Option, ap, arith, false, if◌then◌else◌, inl, inr, leb, leb→le,
  ltb, ltb→lt, sym, true, ℕ, ◌*◌, ◌+◌, ◌-◌, ◌<◌, ◌∙◌, ◌≡◌, ◌≤◌,
}
use os_jisaku.Prelude.Int.{int_laws, neg_part, one_sign, pos, pos_part, ◌+ℤ◌, ◌-ℤ◌, ◌<ℤ◌}

module _ (dst src : FrameBuffer) (vd : IsValid dst) (vs : IsValid src)
    (src_bytes : IsBytes src.bytes) (tc : Option PixelColor) (tc_ok : IsColor tc)
    (same : src.pixel_format ≡ dst.pixel_format) where
  -- A part that lies in both buffers, copied: the pixels of the part, and no other.
  module _ (a : Coords) (some_x : pos 0 <ℤ a.size.x) (some_y : pos 0 <ℤ a.size.y)
      (in_dst : Covers
        (bounds dst.horizontal_resolution dst.vertical_resolution)
        (corners a.to_pos (add a.to_pos a.size)))
      (in_src : Covers
        (bounds src.horizontal_resolution src.vertical_resolution)
        (corners a.src_pos (add a.src_pos a.size))) where
    abbrev tx : ℕ
    tx = pos_part a.to_pos.x

    abbrev ty : ℕ
    ty = pos_part a.to_pos.y

    abbrev sx : ℕ
    sx = pos_part a.src_pos.x

    abbrev sy : ℕ
    sy = pos_part a.src_pos.y

    abbrev w : ℕ
    w = pos_part a.size.x

    abbrev h : ℕ
    h = pos_part a.size.y

    -- The positions and the size are numbers, and the block lies in both pictures.
    numbers :
        (neg_part a.to_pos.x ≡ 0)
        × (neg_part a.to_pos.y ≡ 0)
        × (neg_part a.src_pos.x ≡ 0)
        × (neg_part a.src_pos.y ≡ 0)
        × (neg_part a.size.x ≡ 0)
        × (neg_part a.size.y ≡ 0)
        × (tx + w ≤ dst.horizontal_resolution)
        × (ty + h ≤ dst.vertical_resolution)
        × (sx + w ≤ src.horizontal_resolution)
        × (sy + h ≤ src.vertical_resolution)
    unfolding corners add
    numbers = omega (
      int_laws,
      in_dst,
      in_src,
      one_sign a.to_pos.x,
      one_sign a.to_pos.y,
      one_sign a.src_pos.x,
      one_sign a.src_pos.y,
      one_sign a.size.x,
      one_sign a.size.y,
    )

    row : ℕ → ℕ → Bytes → Bytes
    row = (copied_bytes-AsBlit dst src a tc src_bytes tc_ok same).0

    row-CopiesRow : CopiesRow src.bytes (skips src tc) 4 w row
    unfolding row
    row-CopiesRow = (copied_bytes-AsBlit dst src a tc src_bytes tc_ok same).1

    dst_addr : frame_addr_at dst a.to_pos ≡ 4 * (dst.pixels_per_scan_line * ty + tx)
    dst_addr =
        let n = numbers in
        frame_addr_at-offset dst a.to_pos.x a.to_pos.y vd (omega int_laws, omega int_laws)
          (omega int_laws, omega int_laws)

    src_addr : frame_addr_at src a.src_pos ≡ 4 * (src.pixels_per_scan_line * sy + sx)
    src_addr =
        let n = numbers in
        frame_addr_at-offset src a.src_pos.x a.src_pos.y vs (omega int_laws, omega int_laws)
          (omega int_laws, omega int_laws)

    as_blit :
        copied_bytes dst src a tc
        ≡ blit row-CopiesRow dst.pixels_per_scan_line src.pixels_per_scan_line tx ty sx sy h
            (omega (arith, numbers, vd.pitch))
            dst.bytes
    unfolding row
    as_blit = (copied_bytes-AsBlit dst src a tc src_bytes tc_ok same).2 ∙ rw (dst_addr, src_addr)

    block_pixel :
        (x y k u v px py : ℕ)
        → k < 4
        → u < w
        → v < h
        → x ≡ tx + u
        → y ≡ ty + v
        → px ≡ sx + u
        → py ≡ sy + v
        → copied_bytes dst src a tc (offset_of 4 dst.pixels_per_scan_line x y k) ≡ (
            if skips src tc (offset_of 4 src.pixels_per_scan_line px py 0)
            then byte_of dst x y k
            else byte_of src px py k)
    block_pixel x y k u v px py hk hu hv ex ey epx epy =
        rw (as_blit, ex, ey, epx, epy)
          (blit_inside row-CopiesRow dst.pixels_per_scan_line src.pixels_per_scan_line tx ty sx sy h
            (omega (arith, numbers, vd.pitch)) dst.bytes u v k hu hv hk)

    -- A pixel in the block is the target of a point of the part.
    in_part :
        (x y : ℕ) (p : Vector2D)
        → target_of a p ≡ record { x = pos x; y = pos y }
        → in_pixels row-CopiesRow dst.pixels_per_scan_line src.pixels_per_scan_line tx ty sx sy h
            (omega (arith, numbers, vd.pitch))
            x
            y
          ≡ true
        → Inside (part a) p
    in_part x y p at_p yes_in =
        let n = numbers in
        let i = (&&-iff_four (leb tx x) (ltb x (tx + w)) (leb ty y) (ltb y (ty + h))).0 yes_in in
        let xl = leb→le tx x i.0 in
        let xh = ltb→lt x (tx + w) i.1 in
        let yl = leb→le ty y i.2 in
        let yh = ltb→lt y (ty + h) i.3 in
        let xp : pos_part (p.x -ℤ a.src_pos.x +ℤ a.to_pos.x) ≡ x = ap (λ v. pos_part v.x) at_p in
        let xn : neg_part (p.x -ℤ a.src_pos.x +ℤ a.to_pos.x) ≡ 0 = ap (λ v. neg_part v.x) at_p in
        let yp : pos_part (p.y -ℤ a.src_pos.y +ℤ a.to_pos.y) ≡ y = ap (λ v. pos_part v.y) at_p in
        let yn : neg_part (p.y -ℤ a.src_pos.y +ℤ a.to_pos.y) ≡ 0 = ap (λ v. neg_part v.y) at_p in
        (
          omega (int_laws, one_sign p.x),
          omega (int_laws, one_sign p.y),
          omega (int_laws, one_sign p.x),
          omega (int_laws, one_sign p.y),
        )

    pub copied_bytes-pixel :
        (x y k : ℕ) (p : Vector2D)
        → x < dst.horizontal_resolution
        → y < dst.vertical_resolution
        → k < 4
        → target_of a p ≡ record { x = pos x; y = pos y }
        → copied_bytes dst src a tc (offset_of 4 dst.pixels_per_scan_line x y k) ≡ (
            if includes (part a) p
            then blended src tc p k (byte_of dst x y k)
            else byte_of dst x y k)
    copied_bytes-pixel x y k p hx hy hk at_p =
        let at_x = ap (λ v. v.x) at_p in
        let at_y = ap (λ v. v.y) at_p in
        let xp : pos_part (p.x -ℤ a.src_pos.x +ℤ a.to_pos.x) ≡ x = ap pos_part at_x in
        let xn : neg_part (p.x -ℤ a.src_pos.x +ℤ a.to_pos.x) ≡ 0 = ap neg_part at_x in
        let yp : pos_part (p.y -ℤ a.src_pos.y +ℤ a.to_pos.y) ≡ y = ap pos_part at_y in
        let yn : neg_part (p.y -ℤ a.src_pos.y +ℤ a.to_pos.y) ≡ 0 = ap neg_part at_y in
        elim (Bool-cases (includes (part a) p)) [
          | inl yes_in ↦
              let i = (includes-Inside (part a) p).0 yes_in in
              let n = numbers in
              rw yes_in (
                block_pixel x y k (pos_part p.x - sx) (pos_part p.y - sy) (pos_part p.x)
                  (pos_part p.y) hk (omega (int_laws, one_sign p.x))
                  (omega (int_laws, one_sign p.y)) (omega (int_laws, one_sign p.x))
                  (omega (int_laws, one_sign p.y)) (omega (int_laws, one_sign p.x))
                  (omega (int_laws, one_sign p.y)))
          | inr not_in ↦
              rw (not_in, as_blit)
                (blit_outside row-CopiesRow dst.pixels_per_scan_line src.pixels_per_scan_line tx ty
                  sx sy h (omega (arith, numbers, vd.pitch)) dst.bytes x y k
                  (omega (arith, vd.pitch)) hk
                  (Bool-ext _ false (
                    λ yes_in.
                        sym not_in ∙ (includes-Inside (part a) p).1 (in_part x y p at_p yes_in),
                    λ never. cc,
                  )))
        ]
