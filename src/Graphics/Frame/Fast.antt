-- ===== src/Graphics/Frame/Fast.antt =====
-- `copy_transparent_bpp_4` copies words where `copy_transparent` copies bytes: the same bytes result.
use os_jisaku.Graphics.Color.{Bytes}
use os_jisaku.Graphics.Frame.Blit.{
  copy_transparent, copy_transparent_bpp_4, equal_bytes, for_rows, load_u32, memcpy, store_u32,
  transparent_row, transparent_row_bpp_4,
}
use os_jisaku.Graphics.Geometry.{Vector2D, size}
use os_jisaku.Prelude.{ap, arith, fun_ext, refl, suc, zero, ℕ, ◌+◌, ◌<◌, ◌==◌, ◌^◌, ◌≡◌}
use os_jisaku.Prelude.Int.{pos_part}

-- Every byte is a byte.
abbrev pub IsBytes : Bytes → Type 0
IsBytes a = (i : ℕ) → a i < 2 ^ 8

same_word :
    (a b : Bytes) (i j : ℕ)
    → IsBytes a
    → IsBytes b
    → (load_u32 a i == load_u32 b j) ≡ equal_bytes a i b j 4
unfolding equal_bytes
same_word a b i j ha hb =
    ground
      (arith, ha i, ha (i + 1), ha (i + 2), ha (i + 3), hb j, hb (j + 1), hb (j + 2), hb (j + 3))

store_u32-load_u32 :
    (dst src : Bytes) (d s j : ℕ)
    → IsBytes src
    → store_u32 dst d (load_u32 src s) j ≡ memcpy dst d src s 4 j
store_u32-load_u32 dst src d s j h = ground (arith, h s, h (s + 1), h (s + 2), h (s + 3))

module _ (src tc : Bytes) (src_bytes : IsBytes src) (tc_bytes : IsBytes tc) where
  transparent_row_bpp_4-row :
      (n d s : ℕ) (dst : Bytes)
      → transparent_row_bpp_4 src (load_u32 tc 0) n d s dst ≡ transparent_row src tc 4 n d s dst
  unfolding transparent_row_bpp_4 transparent_row
  transparent_row_bpp_4-row zero d s dst = refl
  transparent_row_bpp_4-row (suc n) d s dst =
      rw
        (
          same_word src tc s 0 src_bytes tc_bytes,
          fun_ext (λ j. store_u32-load_u32 dst src d s j src_bytes),
        )
        (transparent_row_bpp_4-row n (d + 4) (s + 4) _)

  -- For four bytes to the pixel, and buffers that hold bytes, the fast loop leaves exactly the bytes
  -- that the general loop leaves.
  pub copy_transparent_bpp_4-eq :
      (dst : Bytes) (d s : ℕ) (size : Vector2D) (dst_bpl src_bpl : ℕ)
      → copy_transparent_bpp_4 dst d src s tc size dst_bpl src_bpl
        ≡ copy_transparent dst d src s tc size 4 dst_bpl src_bpl
  unfolding copy_transparent_bpp_4 copy_transparent
  copy_transparent_bpp_4-eq dst d s size dst_bpl src_bpl =
      ap (λ row. for_rows row dst_bpl src_bpl (pos_part size.y) d s dst)
        (fun_ext (λ d'.
          fun_ext (λ s'. fun_ext (λ to. transparent_row_bpp_4-row (pos_part size.x) d' s' to))))
