-- ===== src/Graphics/Frame/Rows.antt =====
-- What the copying loops leave in memory, byte by byte.
use os_jisaku.Graphics.Color.{Bytes}
use os_jisaku.Graphics.Frame.Blit.{equal_bytes, for_rows, memcpy, transparent_row}
use os_jisaku.Prelude.{
  ap, arith, if◌then◌else◌, refl, suc, zero, ℕ, ◌*◌, ◌+◌, ◌<◌, ◌∙◌, ◌≡◌, ◌≤◌, ◌⊎◌,
}

-- The bytes of a pixel lie within those of its row.
pub pixel_index-lt : (x w b k : ℕ) → x < w → k < b → x * b + k < w * b
pixel_index-lt x w b k h g = grind arith

module _ (src tc : Bytes) (bpp : ℕ) where
  -- The target after the first pixel of a row.
  abbrev first : ℕ → ℕ → Bytes → Bytes
  first s d dst = if equal_bytes src s tc 0 bpp then dst else memcpy dst d src s bpp

  -- A row writes no byte outside its pixels.
  pub transparent_row_outside :
      (n d s : ℕ) (dst : Bytes) (j : ℕ)
      → (j < d) ⊎ (d + n * bpp ≤ j)
      → transparent_row src tc bpp n d s dst j ≡ dst j
  unfolding transparent_row
  transparent_row_outside zero d s dst j far = refl
  transparent_row_outside (suc n) d s dst j far =
      transparent_row_outside n (d + bpp) (s + bpp) (first s d dst) j (omega arith) ∙ ground arith

  -- A pixel of the row is the source's, unless the source has the transparent colour there.
  pub transparent_row_inside :
      (n d s : ℕ) (dst : Bytes) (x k : ℕ)
      → x < n
      → k < bpp
      → transparent_row src tc bpp n d s dst (d + x * bpp + k) ≡ (
          if equal_bytes src (s + x * bpp) tc 0 bpp
          then dst (d + x * bpp + k)
          else src (s + x * bpp + k))
  unfolding transparent_row
  transparent_row_inside zero d s dst x k hx hk = absurd (omega arith)
  transparent_row_inside (suc n) d s dst zero k hx hk =
      let at_s : s + 0 * bpp ≡ s = omega arith in
      transparent_row_outside n (d + bpp) (s + bpp) (first s d dst) (d + 0 * bpp + k) (omega arith)
      ∙ rw at_s (ground arith)
  transparent_row_inside (suc n) d s dst (suc x) k hx hk =
      let at_d : d + suc x * bpp + k ≡ d + bpp + x * bpp + k = omega arith in
      let at_s : s + suc x * bpp ≡ s + bpp + x * bpp = omega arith in
      rw (at_d, at_s)
        (transparent_row_inside n (d + bpp) (s + bpp) (first s d dst) x k (omega arith) hk
          ∙ ground arith)

module _ (row : ℕ → ℕ → Bytes → Bytes) (dst_bpl src_bpl : ℕ)
    (keeps : (d s : ℕ) (dst : Bytes) (j : ℕ)
      → (j < d) ⊎ (d + dst_bpl ≤ j)
      → row d s dst j ≡ dst j) where
  -- The loop over the lines writes no byte outside them.
  pub for_rows_outside :
      (n d s : ℕ) (dst : Bytes) (j : ℕ)
      → (j < d) ⊎ (d + n * dst_bpl ≤ j)
      → for_rows row dst_bpl src_bpl n d s dst j ≡ dst j
  unfolding for_rows
  for_rows_outside zero d s dst j far = refl
  for_rows_outside (suc n) d s dst j far =
      for_rows_outside n (d + dst_bpl) (s + src_bpl) (row d s dst) j (omega arith)
      ∙ keeps d s dst j (omega arith)

  -- Where a line makes `val s old` of the byte `i` from its start, so does the loop on each line.
  pub for_rows_inside :
      (i : ℕ) (val : ℕ → ℕ → ℕ)
      → i < dst_bpl
      → ((d s : ℕ) (dst : Bytes) → row d s dst (d + i) ≡ val s (dst (d + i)))
      → (n d s : ℕ) (dst : Bytes) (r : ℕ) → r < n
      → for_rows row dst_bpl src_bpl n d s dst (d + r * dst_bpl + i)
        ≡ val (s + r * src_bpl) (dst (d + r * dst_bpl + i))
  unfolding for_rows
  for_rows_inside i val small line zero d s dst r hr = absurd (omega arith)
  for_rows_inside i val small line (suc n) d s dst zero hr =
      let at_d : d + 0 * dst_bpl + i ≡ d + i = omega arith in
      let at_s : s + 0 * src_bpl ≡ s = omega arith in
      rw (at_d, at_s)
        (for_rows_outside n (d + dst_bpl) (s + src_bpl) (row d s dst) (d + i) (omega arith)
          ∙ line d s dst)
  for_rows_inside i val small line (suc n) d s dst (suc r) hr =
      let at_d : d + suc r * dst_bpl + i ≡ d + dst_bpl + r * dst_bpl + i = omega arith in
      let at_s : s + suc r * src_bpl ≡ s + src_bpl + r * src_bpl = omega arith in
      rw (at_d, at_s)
        (for_rows_inside i val small line n (d + dst_bpl) (s + src_bpl) (row d s dst) r
            (omega arith)
          ∙ ap (val (s + src_bpl + r * src_bpl))
              (keeps d s dst (d + dst_bpl + r * dst_bpl + i) (omega arith)))
