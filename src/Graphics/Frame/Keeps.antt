-- ===== src/Graphics/Frame/Keeps.antt =====
-- kernel/graphics/frame_buffer.cpp: a copy leaves bytes, and changes nothing of the target but its bytes.
use os_jisaku.Graphics.Color.{Bytes, PixelColor, bytes_per_pixel, same_format}
use os_jisaku.Graphics.Frame.{
  Coords, FrameBuffer, adjust_coords, bytes_per_scan_line, copied_bytes, copy_from, frame_addr_at,
  frame_size,
}
use os_jisaku.Graphics.Frame.Blit.{
  copy_opaque, copy_transparent, copy_transparent_bpp_4, equal_bytes, for_rows, load_u32, memcpy,
  store_u32, transparent_row, transparent_row_bpp_4,
}
use os_jisaku.Graphics.Frame.Fast.{IsBytes}
use os_jisaku.Graphics.Frame.Whole.{clone}
use os_jisaku.Prelude.{
  Bool, Bool-cases, Option, arith, false, if◌then◌else◌, inl, inr, leb, ltb, none, some, suc, true,
  zero, ℕ, ◌&&◌, ◌+◌, ◌-◌, ◌==◌, ◌||◌, ◌≡◌,
}
use os_jisaku.Prelude.Int.{leb_ℤ, pos, pos_part}

memcpy-IsBytes :
    (dst : Bytes) (d : ℕ) (src : Bytes) (s n : ℕ)
    → IsBytes dst
    → IsBytes src
    → IsBytes (memcpy dst d src s n)
memcpy-IsBytes dst d src s n hd hs j = elim (Bool-cases (leb d j && ltb j (d + n))) [
  | inl e ↦ rw e (hs (s + (j - d)))
  | inr e ↦ rw e (hd j)
]

store_u32-IsBytes : (dst : Bytes) (d v : ℕ) → IsBytes dst → IsBytes (store_u32 dst d v)
store_u32-IsBytes dst d v h j = ground (arith, h j)

-- A line that is copied keeps bytes bytes, and so do all lines.
for_rows-IsBytes :
    (row : ℕ → ℕ → Bytes → Bytes) (dst_bpl src_bpl n d s : ℕ) (dst : Bytes)
    → ((d' s' : ℕ) (to : Bytes) → IsBytes to → IsBytes (row d' s' to))
    → IsBytes dst
    → IsBytes (for_rows row dst_bpl src_bpl n d s dst)
unfolding for_rows
for_rows-IsBytes row dst_bpl src_bpl zero d s dst keep h = h
for_rows-IsBytes row dst_bpl src_bpl (suc n) d s dst keep h =
    for_rows-IsBytes row dst_bpl src_bpl n (d + dst_bpl) (s + src_bpl) (row d s dst) keep
      (keep d s dst h)

if-IsBytes : (t : Bool) (a b : Bytes) → IsBytes a → IsBytes b → IsBytes (if t then a else b)
if-IsBytes true a b ha hb = ha
if-IsBytes false a b ha hb = hb

transparent_row-IsBytes :
    (src tc : Bytes) (bpp n d s : ℕ) (dst : Bytes)
    → IsBytes src
    → IsBytes dst
    → IsBytes (transparent_row src tc bpp n d s dst)
unfolding transparent_row
transparent_row-IsBytes src tc bpp zero d s dst hs h = h
transparent_row-IsBytes src tc bpp (suc n) d s dst hs h =
    transparent_row-IsBytes src tc bpp n (d + bpp) (s + bpp) _ hs (
      if-IsBytes (equal_bytes src s tc 0 bpp) dst (memcpy dst d src s bpp) h
        (memcpy-IsBytes dst d src s bpp h hs))

transparent_row_bpp_4-IsBytes :
    (src : Bytes) (tc n d s : ℕ) (dst : Bytes)
    → IsBytes dst
    → IsBytes (transparent_row_bpp_4 src tc n d s dst)
unfolding transparent_row_bpp_4
transparent_row_bpp_4-IsBytes src tc zero d s dst h = h
transparent_row_bpp_4-IsBytes src tc (suc n) d s dst h =
    transparent_row_bpp_4-IsBytes src tc n (d + 4) (s + 4) _ (
      if-IsBytes (load_u32 src s == tc) dst (store_u32 dst d (load_u32 src s)) h
        (store_u32-IsBytes dst d (load_u32 src s) h))

copied_bytes-IsBytes :
    (dst src : FrameBuffer) (c : Coords) (tc : Option PixelColor)
    → IsBytes dst.bytes
    → IsBytes src.bytes
    → IsBytes (copied_bytes dst src c tc)
unfolding copied_bytes copy_opaque copy_transparent copy_transparent_bpp_4
copied_bytes-IsBytes dst src c none hd hs =
    for_rows-IsBytes _ (bytes_per_scan_line dst) (bytes_per_scan_line src) (pos_part c.size.y)
      (frame_addr_at dst c.to_pos) (frame_addr_at src c.src_pos) dst.bytes
      (λ d' s' to h. memcpy-IsBytes to d' src.bytes s' _ h hs) hd
copied_bytes-IsBytes dst src c (some color) hd hs =
    if-IsBytes (bytes_per_pixel dst.pixel_format == 4) _ _
      (for_rows-IsBytes _ (bytes_per_scan_line dst) (bytes_per_scan_line src) (pos_part c.size.y)
        (frame_addr_at dst c.to_pos) (frame_addr_at src c.src_pos) dst.bytes
        (λ d' s' to h. transparent_row_bpp_4-IsBytes src.bytes _ (pos_part c.size.x) d' s' to h) hd)
      (for_rows-IsBytes _ (bytes_per_scan_line dst) (bytes_per_scan_line src) (pos_part c.size.y)
        (frame_addr_at dst c.to_pos) (frame_addr_at src c.src_pos) dst.bytes
        (λ d' s' to h.
          transparent_row-IsBytes src.bytes _ (bytes_per_pixel dst.pixel_format) (pos_part c.size.x)
            d' s' to hs h)
        hd)

-- The result has other bytes, and is otherwise the same buffer.
abbrev pub Redrawn : FrameBuffer → FrameBuffer → Type 0
Redrawn fb changed = (b : Bytes) × IsBytes b × (changed ≡ record fb { bytes = b })

pub copy_from-Redrawn :
    (dst src : FrameBuffer) (c : Coords) (tc : Option PixelColor)
    → IsBytes dst.bytes
    → IsBytes src.bytes
    → Redrawn dst (copy_from dst src c tc).1
unfolding copy_from
copy_from-Redrawn dst src c tc hd hs =
    let a = adjust_coords (frame_size dst) (frame_size src) c in
    elim (Bool-cases (same_format src.pixel_format dst.pixel_format)) [
      | inr other ↦ (dst.bytes, hd, rw other)
      | inl same ↦ elim (Bool-cases (leb_ℤ a.size.x (pos 0) || leb_ℤ a.size.y (pos 0))) [
        | inl no_size ↦ (dst.bytes, hd, rw (same, no_size))
        | inr some_size ↦ (
          copied_bytes dst src a tc,
          copied_bytes-IsBytes dst src a tc hd hs,
          rw (same, some_size),
        )
      ]
    ]

pub clone-IsBytes : (fb : FrameBuffer) → IsBytes fb.bytes → IsBytes (clone fb).bytes
unfolding clone
clone-IsBytes fb h = memcpy-IsBytes (λ i. 0) 0 fb.bytes 0 _ (λ i. omega arith) h
