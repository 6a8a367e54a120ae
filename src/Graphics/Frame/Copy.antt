-- ===== src/Graphics/Frame/Copy.antt =====
-- `copy_from` by pixels: which bytes of the target it changes, and to what.
use os_jisaku.Errors.{success, unknown_pixel_format}
use os_jisaku.Graphics.Color.{PixelColor, same_format}
use os_jisaku.Graphics.Color.Layout.{same_format_iff}
use os_jisaku.Graphics.Frame.{Coords, FrameBuffer, copied_bytes, copy_from, frame_size}
use os_jisaku.Graphics.Frame.Block.{copied_bytes-pixel}
use os_jisaku.Graphics.Frame.Clip.{
  adjust_coords-clips, adjusted, adjusted_inside, bounds, part, target_of,
}
use os_jisaku.Graphics.Frame.Fast.{IsBytes}
use os_jisaku.Graphics.Frame.Pixels.{offset_of}
use os_jisaku.Graphics.Frame.Valid.{IsColor, IsValid, blended, byte_of}
use os_jisaku.Graphics.Geometry.{Vector2D, includes}
use os_jisaku.Graphics.Geometry.Laws.{includes-Inside}
use os_jisaku.Prelude.{
  Bool-cases, Bool-ext, Option, and_true, ap, false, if◌then◌else◌, inl, inr, leb→le, leb→lt, refl,
  true, ℕ, ◌&&◌, ◌<◌, ◌∙◌, ◌≡◌, ◌≢◌, ◌⊎◌,
}
use os_jisaku.Prelude.Int.{int_laws, leb_ℤ, pos, ◌<ℤ◌, ◌≤ℤ◌}

module _ (dst src : FrameBuffer) (vd : IsValid dst) (vs : IsValid src)
    (src_bytes : IsBytes src.bytes) (tc : Option PixelColor) (tc_ok : IsColor tc)
    (same : src.pixel_format ≡ dst.pixel_format) where
  module _ (c : Coords) where
    abbrev clipped : Coords
    clipped =
        adjusted dst.horizontal_resolution dst.vertical_resolution src.horizontal_resolution
          src.vertical_resolution c

    -- The code after the guards: an empty part changes nothing, any other is copied.
    copy_from_cases :
        (copy_from dst src c tc ≡ (success, dst))
          × ((clipped.size.x ≤ℤ pos 0) ⊎ (clipped.size.y ≤ℤ pos 0))
        ⊎ (copy_from dst src c tc
            ≡ (success, record dst { bytes = copied_bytes dst src clipped tc }))
          × (pos 0 <ℤ clipped.size.x)
          × (pos 0 <ℤ clipped.size.y)
    unfolding copy_from frame_size
    copy_from_cases =
        let fmt = (same_format_iff src.pixel_format dst.pixel_format).1 same in
        elim (Bool-cases (leb_ℤ clipped.size.x (pos 0))) [
          | inl wide ↦ inl (rw (fmt, wide), inl (leb→le _ _ wide))
          | inr not_wide ↦ elim (Bool-cases (leb_ℤ clipped.size.y (pos 0))) [
            | inl high ↦ inl (rw (fmt, not_wide, high), inr (leb→le _ _ high))
            | inr not_high ↦
                inr (rw (fmt, not_wide, not_high), leb→lt _ _ not_wide, leb→lt _ _ not_high)
          ]
        ]

    -- For a pixel of the target the clipped part is the part inside the source.
    clipped-part :
        (x y : ℕ) (p : Vector2D)
        → x < dst.horizontal_resolution
        → y < dst.vertical_resolution
        → target_of c p ≡ record { x = pos x; y = pos y }
        → includes (part clipped) p ≡ (
            includes (part c) p
            && includes (bounds src.horizontal_resolution src.vertical_resolution) p)
    clipped-part x y p hx hy at_p =
        let inside : includes (bounds dst.horizontal_resolution dst.vertical_resolution)
              (target_of c p)
            ≡ true =
          rw at_p (
            (includes-Inside (bounds dst.horizontal_resolution dst.vertical_resolution)
                (record { x = pos x; y = pos y })).1
              (omega int_laws, omega int_laws, omega int_laws, omega int_laws)) in
        let clip =
          (adjust_coords-clips dst.horizontal_resolution dst.vertical_resolution
            src.horizontal_resolution src.vertical_resolution c p).0 in
        rw (clip, inside, and_true)

    nothing_in :
        (p : Vector2D)
        → (clipped.size.x ≤ℤ pos 0) ⊎ (clipped.size.y ≤ℤ pos 0)
        → includes (part clipped) p ≡ false
    nothing_in p no_size = Bool-ext _ false (
      λ yes. let i = (includes-Inside (part clipped) p).0 yes in absurd (omega int_laws),
      λ never. cc,
    )

  -- Copying a part `c` between buffers of one format succeeds, and of the target's pixels exactly
  -- those change that are the target of a point of `c` inside the source: byte `k` of such a pixel
  -- becomes the source's, except where the source has the transparent colour.
  pub copy_from-pixel :
      (c : Coords) (x y k : ℕ) (p : Vector2D)
      → x < dst.horizontal_resolution
      → y < dst.vertical_resolution
      → k < 4
      → target_of c p ≡ record { x = pos x; y = pos y }
      → ((copy_from dst src c tc).0 ≡ success)
        × ((copy_from dst src c tc).1.bytes (offset_of 4 dst.pixels_per_scan_line x y k) ≡ (
            if includes (part c) p
              && includes (bounds src.horizontal_resolution src.vertical_resolution) p
            then blended src tc p k (byte_of dst x y k)
            else byte_of dst x y k))
  copy_from-pixel c x y k p hx hy hk at_p =
      let asked = clipped-part c x y p hx hy at_p in
      elim (copy_from_cases c) [
        | inl (e, no_size) ↦ rw (e, ← asked, nothing_in c p no_size) (refl, refl)
        | inr (e, some_x, some_y) ↦
            let inside =
              adjusted_inside dst.horizontal_resolution dst.vertical_resolution
                src.horizontal_resolution src.vertical_resolution c some_x some_y in
            let clip =
              adjust_coords-clips dst.horizontal_resolution dst.vertical_resolution
                src.horizontal_resolution src.vertical_resolution c p in
            (
              ap (λ r. r.0) e,
              rw (e, ← asked)
                  (copied_bytes-pixel dst src vd vs src_bytes tc tc_ok same (clipped c) some_x
                    some_y inside.0 inside.1 x y k p hx hy hk (clip.1 ∙ at_p)),
            )
      ]

-- Between buffers of different formats nothing is copied, and the code says so.
pub copy_from-formats :
    (dst src : FrameBuffer) (c : Coords) (tc : Option PixelColor)
    → src.pixel_format ≢ dst.pixel_format
    → copy_from dst src c tc ≡ (unknown_pixel_format, dst)
unfolding copy_from
copy_from-formats dst src c tc other =
    let fmt : same_format src.pixel_format dst.pixel_format ≡ false = Bool-ext _ false (
      λ yes. absurd (other ((same_format_iff src.pixel_format dst.pixel_format).0 yes)),
      λ never. cc,
    ) in
    rw fmt
