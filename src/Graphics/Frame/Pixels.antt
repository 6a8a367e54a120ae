-- ===== src/Graphics/Frame/Pixels.antt =====
-- The copying loops seen by pixels: a block of `w` times `h` pixels, at (`tx`, `ty`) of a target with
-- `dp` pixels to the line, from (`sx`, `sy`) of a source with `sp`.
use native.Mathlib.Nat.{add_assoc}
use os_jisaku.Graphics.Color.{Bytes}
use os_jisaku.Graphics.Frame.Blit.{equal_bytes, for_rows, memcpy, transparent_row}
use os_jisaku.Graphics.Frame.Rows.{
  for_rows_inside, for_rows_outside, pixel_index-lt, transparent_row_inside,
  transparent_row_outside,
}
use os_jisaku.Prelude.{
  ==→≡, Bool, Bool-cases, ap, arith, false, if◌then◌else◌, inl, inr, leb, leb→lt, ltb, ltb→le,
  ltb→lt, suc, ℕ, ◌&&◌, ◌*◌, ◌+◌, ◌-◌, ◌<◌, ◌==◌, ◌≡◌, ◌≤◌, ◌⊎◌,
}

-- What one line does: the pixels that `skip` does not leave out become the source's, and no byte
-- outside the `w` pixels changes.
pub record CopiesRow (src : Bytes) (skip : ℕ → Bool) (bpp w : ℕ) (row : ℕ → ℕ → Bytes → Bytes)
    : Type 0 where
  pub outside :
      (d s : ℕ) (dst : Bytes) (j : ℕ) → (j < d) ⊎ (d + w * bpp ≤ j) → row d s dst j ≡ dst j
  pub inside :
      (d s : ℕ) (dst : Bytes) (x k : ℕ)
      → x < w
      → k < bpp
      → row d s dst (d + x * bpp + k)
        ≡ (if skip (s + x * bpp) then dst (d + x * bpp + k) else src (s + x * bpp + k))

pub transparent_row-CopiesRow :
    (src tc : Bytes) (bpp w : ℕ)
    → CopiesRow src (λ i. equal_bytes src i tc 0 bpp) bpp w (transparent_row src tc bpp w)
transparent_row-CopiesRow src tc bpp w = record {
  outside = λ d s dst j far. transparent_row_outside src tc bpp w d s dst j far;
  inside = λ d s dst x k hx hk. transparent_row_inside src tc bpp w d s dst x k hx hk;
}

pub memcpy-CopiesRow :
    (src : Bytes) (bpp w : ℕ)
    → CopiesRow src (λ i. false) bpp w (λ d s to. memcpy to d src s (bpp * w))
memcpy-CopiesRow src bpp w = record {
  outside = λ d s dst j far. ground arith;
  inside = λ d s dst x k hx hk. ground (arith, pixel_index-lt x w bpp k hx hk);
}

-- The offset of byte `k` of a pixel.
abbrev pub offset_of : ℕ → ℕ → ℕ → ℕ → ℕ → ℕ
offset_of bpp pitch x y k = bpp * (pitch * y + x) + k

scaled-lt : (b q q' k : ℕ) → q < q' → k < b → b * q + k < b * q'
scaled-lt b q q' k h g = grind arith

scaled-le : (b q q' : ℕ) → q ≤ q' → b * q ≤ b * q'
scaled-le b q q' h = grind arith

module _ {src : Bytes} {skip : ℕ → Bool} {bpp w : ℕ} {row : ℕ → ℕ → Bytes → Bytes}
    (copies : CopiesRow src skip bpp w row) (dp sp tx ty sx sy h : ℕ)
    (in_target : tx + w ≤ dp) where
  abbrev pub blit : Bytes → Bytes
  blit dst = for_rows row (bpp * dp) (bpp * sp) h (bpp * (dp * ty + tx)) (bpp * (sp * sy + sx)) dst

  in_line : w * bpp ≤ bpp * dp
  in_line = grind arith

  line_keeps :
      (d s : ℕ) (dst : Bytes) (j : ℕ) → (j < d) ⊎ (d + bpp * dp ≤ j) → row d s dst j ≡ dst j
  line_keeps d s dst j far = copies.outside d s dst j (omega (arith, in_line))

  pub blit_inside :
      (dst : Bytes) (x y k : ℕ)
      → x < w
      → y < h
      → k < bpp
      → blit dst (offset_of bpp dp (tx + x) (ty + y) k) ≡ (
          if skip (offset_of bpp sp (sx + x) (sy + y) 0)
          then dst (offset_of bpp dp (tx + x) (ty + y) k)
          else src (offset_of bpp sp (sx + x) (sy + y) k))
  blit_inside dst x y k hx hy hk =
      let at_d : offset_of bpp dp (tx + x) (ty + y) k
          ≡ bpp * (dp * ty + tx) + y * (bpp * dp) + (x * bpp + k) =
        omega arith in
      let at_s : offset_of bpp sp (sx + x) (sy + y) k
          ≡ bpp * (sp * sy + sx) + y * (bpp * sp) + x * bpp + k =
        omega arith in
      let at_s0 : offset_of bpp sp (sx + x) (sy + y) 0
          ≡ bpp * (sp * sy + sx) + y * (bpp * sp) + x * bpp =
        omega arith in
      rw (at_d, at_s, at_s0)
        (for_rows_inside row (bpp * dp) (bpp * sp) line_keeps (x * bpp + k)
          (λ s old. if skip (s + x * bpp) then old else src (s + x * bpp + k))
          (omega (arith, in_line, pixel_index-lt x w bpp k hx hk))
          (λ d s to. rw (← add_assoc d (x * bpp) k) (copies.inside d s to x k hx hk)) h
          (bpp * (dp * ty + tx)) (bpp * (sp * sy + sx)) dst y hy)

  -- A byte of a line right of the block, or left of it in the next line, stays.
  beside :
      (dst : Bytes) (y i : ℕ)
      → y < h
      → w * bpp ≤ i
      → i < bpp * dp
      → blit dst (bpp * (dp * ty + tx) + y * (bpp * dp) + i)
        ≡ dst (bpp * (dp * ty + tx) + y * (bpp * dp) + i)
  beside dst y i hy low high =
      for_rows_inside row (bpp * dp) (bpp * sp) line_keeps i (λ s old. old) high
        (λ d s to. copies.outside d s to (d + i) (omega arith)) h (bpp * (dp * ty + tx))
        (bpp * (sp * sy + sx)) dst y hy

  -- The pixels of the block.
  abbrev pub in_pixels : ℕ → ℕ → Bool
  in_pixels x y = leb tx x && ltb x (tx + w) && leb ty y && ltb y (ty + h)

  above_or_below :
      (dst : Bytes) (x y k : ℕ)
      → k < bpp
      → (dp * y + x < dp * ty + tx) ⊎ (dp * (ty + h) + tx ≤ dp * y + x)
      → blit dst (offset_of bpp dp x y k) ≡ dst (offset_of bpp dp x y k)
  above_or_below dst x y k hk far =
      for_rows_outside row (bpp * dp) (bpp * sp) line_keeps h (bpp * (dp * ty + tx))
        (bpp * (sp * sy + sx)) dst (offset_of bpp dp x y k) (side far)
    where
      side :
          (dp * y + x < dp * ty + tx) ⊎ (dp * (ty + h) + tx ≤ dp * y + x)
          → (offset_of bpp dp x y k < bpp * (dp * ty + tx))
            ⊎ (bpp * (dp * ty + tx) + h * (bpp * dp) ≤ offset_of bpp dp x y k)
      side (inl before) = inl (scaled-lt bpp (dp * y + x) (dp * ty + tx) k before hk)
      side (inr after) = inr (omega (arith, scaled-le bpp (dp * (ty + h) + tx) (dp * y + x) after))

  left_of :
      (dst : Bytes) (x y k rest : ℕ)
      → y < h
      → k < bpp
      → dp + x ≡ tx + rest
      → x < tx
      → blit dst (offset_of bpp dp x (ty + suc y) k) ≡ dst (offset_of bpp dp x (ty + suc y) k)
  left_of dst x y k rest hy hk e hx =
      let scaled : bpp * (dp + x) ≡ bpp * (tx + rest) = ap (λ t. bpp * t) e in
      let at_d : offset_of bpp dp x (ty + suc y) k
          ≡ bpp * (dp * ty + tx) + y * (bpp * dp) + (bpp * rest + k) =
        omega (arith, scaled) in
      rw at_d (
        beside dst y (bpp * rest + k) hy (omega (arith, scaled-le bpp w rest (omega arith)))
          (scaled-lt bpp rest dp k (omega arith) hk))

  right_of :
      (dst : Bytes) (x y k : ℕ)
      → y < h
      → k < bpp
      → w ≤ x
      → tx + x < dp
      → blit dst (offset_of bpp dp (tx + x) (ty + y) k) ≡ dst (offset_of bpp dp (tx + x) (ty + y) k)
  right_of dst x y k hy hk hx in_dp =
      let at_d : offset_of bpp dp (tx + x) (ty + y) k
          ≡ bpp * (dp * ty + tx) + y * (bpp * dp) + (bpp * x + k) =
        omega arith in
      rw at_d (
        beside dst y (bpp * x + k) hy (omega (arith, scaled-le bpp w x hx))
          (scaled-lt bpp x dp k (omega arith) hk))

  -- A pixel that is not in the block keeps its bytes.
  pub blit_outside :
      (dst : Bytes) (x y k : ℕ)
      → x < dp
      → k < bpp
      → in_pixels x y ≡ false
      → blit dst (offset_of bpp dp x y k) ≡ dst (offset_of bpp dp x y k)
  blit_outside dst x y k hx hk out = elim (Bool-cases (ltb y ty)) [
    | inl above ↦
        above_or_below dst x y k hk
          (inl (omega (arith, scaled-le dp (suc y) ty (ltb→lt y ty above))))
    | inr not_above ↦ elim (Bool-cases (ltb x tx)) [
      | inl left ↦ elim (Bool-cases (y == ty)) [
        | inl first ↦
            above_or_below dst x y k hk
              (inl (rw (==→≡ y ty first) (omega (arith, ltb→lt x tx left))))
        | inr later ↦ elim (Bool-cases (leb y (ty + h))) [
          | inl in_reach ↦
              let e : y ≡ ty + suc (y - ty - 1) = ground arith in
              rw e (
                left_of dst x (y - ty - 1) k (dp + x - tx) (ground arith) hk (ground arith)
                  (ground arith))
          | inr below ↦
              above_or_below dst x y k hk
                (inr (omega (arith, scaled-le dp (suc (ty + h)) y (leb→lt _ _ below))))
        ]
      ]
      | inr not_left ↦ elim (Bool-cases (ltb y (ty + h))) [
        | inl in_lines ↦
            let e : y ≡ ty + (y - ty) = ground arith in
            let e' : x ≡ tx + (x - tx) = ground arith in
            rw (e, e')
              (right_of dst (x - tx) (y - ty) k (ground arith) hk (ground arith) (ground arith))
        | inr below ↦
            above_or_below dst x y k hk
              (inr (omega (arith, scaled-le dp (ty + h) y (ltb→le _ _ below), ltb→le _ _ not_left)))
      ]
    ]
  ]
