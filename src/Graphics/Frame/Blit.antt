-- ===== src/Graphics/Frame/Blit.antt =====
-- kernel/graphics/frame_buffer.cpp: the loops that copy bytes from one buffer to another.
use os_jisaku.Graphics.Color.{Bytes, store}
use os_jisaku.Graphics.Geometry.{Vector2D, size}
use os_jisaku.Prelude.{
  Bool, if◌then◌else◌, leb, ltb, suc, true, zero, ℕ, ◌%◌, ◌&&◌, ◌*◌, ◌+◌, ◌-◌, ◌/◌, ◌==◌, ◌^◌,
}
use os_jisaku.Prelude.Int.{pos_part}

-- `memcpy(dst + d, src + s, n)`.
abbrev pub memcpy : Bytes → ℕ → Bytes → ℕ → ℕ → Bytes
memcpy dst d src s n j = if leb d j && ltb j (d + n) then src (s + (j - d)) else dst j

-- `memcmp(a + i, b + j, n) == 0`.
unfoldable pub equal_bytes : Bytes → ℕ → Bytes → ℕ → ℕ → Bool
equal_bytes a i b j zero = true
equal_bytes a i b j (suc n) = a i == b j && equal_bytes a (i + 1) b (j + 1) n

-- The inner loop of `copy_transparent`, with `left` pixels to go.
unfoldable pub transparent_row : Bytes → Bytes → ℕ → ℕ → ℕ → ℕ → Bytes → Bytes
unfolding equal_bytes
transparent_row src tc bpp zero d s dst = dst
transparent_row src tc bpp (suc left) d s dst =
    transparent_row src tc bpp left (d + bpp) (s + bpp)
      (if equal_bytes src s tc 0 bpp then dst else memcpy dst d src s bpp)

-- The outer loops of `copy_transparent`, `copy_transparent_bpp_4` and `copy_from`: `row` copies one
-- line, and the pointers go on to the next.
unfoldable pub for_rows : (ℕ → ℕ → Bytes → Bytes) → ℕ → ℕ → ℕ → ℕ → ℕ → Bytes → Bytes
for_rows row dst_bpl src_bpl zero d s dst = dst
for_rows row dst_bpl src_bpl (suc left) d s dst =
    for_rows row dst_bpl src_bpl left (d + dst_bpl) (s + src_bpl) (row d s dst)

unfoldable pub copy_transparent : Bytes → ℕ → Bytes → ℕ → Bytes → Vector2D → ℕ → ℕ → ℕ → Bytes
unfolding for_rows transparent_row
copy_transparent dst d src s tc size bpp dst_bpl src_bpl =
    for_rows (transparent_row src tc bpp (pos_part size.x)) dst_bpl src_bpl (pos_part size.y) d s
      dst

-- A `uint32_t` at an offset, least byte first, read and stored.
abbrev pub load_u32 : Bytes → ℕ → ℕ
load_u32 a i = a i + 2 ^ 8 * a (i + 1) + 2 ^ 16 * a (i + 2) + 2 ^ 24 * a (i + 3)

abbrev pub store_u32 : Bytes → ℕ → ℕ → Bytes
store_u32 a i v =
    store
      (store (store (store a i (v % 2 ^ 8)) (i + 1) (v / 2 ^ 8 % 2 ^ 8)) (i + 2)
        (v / 2 ^ 16 % 2 ^ 8))
      (i + 3) (v / 2 ^ 24 % 2 ^ 8)

-- The inner loop of `copy_transparent_bpp_4`.
unfoldable pub transparent_row_bpp_4 : Bytes → ℕ → ℕ → ℕ → ℕ → Bytes → Bytes
transparent_row_bpp_4 src tc zero d s dst = dst
transparent_row_bpp_4 src tc (suc left) d s dst =
    transparent_row_bpp_4 src tc left (d + 4) (s + 4)
      (if load_u32 src s == tc then dst else store_u32 dst d (load_u32 src s))

unfoldable pub copy_transparent_bpp_4 : Bytes → ℕ → Bytes → ℕ → Bytes → Vector2D → ℕ → ℕ → Bytes
unfolding for_rows transparent_row_bpp_4
copy_transparent_bpp_4 dst d src s tc size dst_bpl src_bpl =
    for_rows (transparent_row_bpp_4 src (load_u32 tc 0) (pos_part size.x)) dst_bpl src_bpl
      (pos_part size.y) d s dst

-- The last loop of `copy_from`, without a transparent colour.
unfoldable pub copy_opaque : Bytes → ℕ → Bytes → ℕ → Vector2D → ℕ → ℕ → ℕ → Bytes
unfolding for_rows
copy_opaque dst d src s size bpp dst_bpl src_bpl =
    for_rows (λ d' s' to. memcpy to d' src s' (bpp * pos_part size.x)) dst_bpl src_bpl
      (pos_part size.y) d s dst
