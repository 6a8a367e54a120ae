-- ===== src/Graphics/Layers/Paint.antt =====
-- One layer drawn, by pixels: all of it, and what lies in a damaged rectangle.
use os_jisaku.Graphics.Color.{Bytes, PixelColor, PixelFormat, same_format}
use os_jisaku.Graphics.Frame.{
  Coords, FrameBuffer, copied_bytes, copy_all_from, copy_from, frame_size,
}
use os_jisaku.Graphics.Frame.Clip.{adjusted, bounds, part}
use os_jisaku.Graphics.Frame.Copy.{copy_from-pixel}
use os_jisaku.Graphics.Frame.Fast.{IsBytes}
use os_jisaku.Graphics.Frame.Pixels.{offset_of}
use os_jisaku.Graphics.Frame.Valid.{IsColor, IsValid, byte_of, skips}
use os_jisaku.Graphics.Geometry.{
  Rect, Vector2D, add, corners, cross, height, includes, is_crossing, size, sub, top_left, width,
}
use os_jisaku.Graphics.Geometry.Laws.{Inside, includes-Inside, is_crossing_at}
use os_jisaku.Graphics.Layers.{Layer, draw_layer, draw_layer_in, manager_area}
use os_jisaku.Prelude.{
  &&-iff, Bool, Bool-cases, Bool-ext, List, Option, [], false, if◌then◌else◌, inl, inr, refl, sym,
  true, ℕ, ◌&&◌, ◌<◌, ◌||◌, ◌↔◌, ◌∙◌, ◌∷◌, ◌≡◌,
}
use os_jisaku.Prelude.Int.{int_laws, leb_ℤ, pos, pos_part, ℤ, ◌+ℤ◌, ◌-ℤ◌}

abbrev pub point : ℕ → ℕ → Vector2D
point x y = record { x = pos x; y = pos y }

-- A layer that can be drawn to buffers of the format `f`.
pub record Drawable (f : PixelFormat) (l : Layer) : Type 0 where
  pub valid : IsValid l.buffer
  pub bytes : IsBytes l.buffer.bytes
  pub color : IsColor l.transparent_color
  pub format : l.buffer.pixel_format ≡ f

abbrev pub AllDrawable : PixelFormat → List Layer → Type 0
AllDrawable f [] = Unit {0}
AllDrawable f (l ∷ ls) = Drawable f l × AllDrawable f ls

-- The point of the layer that lies on a point of the screen.
abbrev pub local : Layer → Vector2D → Vector2D
local l q = record { x = q.x -ℤ l.pos_at.x; y = q.y -ℤ l.pos_at.y }

-- What a layer makes of a byte of the pixel at `q`: its own byte, except outside its area and where
-- it has its transparent colour.
abbrev pub paint : Vector2D → ℕ → Layer → ℕ → ℕ
paint q k l old =
    let p = local l q in
    if includes (manager_area l) q
    then (if skips l.buffer l.transparent_color
          (offset_of 4 l.buffer.pixels_per_scan_line (pos_part p.x) (pos_part p.y) 0)
        then old
        else byte_of l.buffer (pos_part p.x) (pos_part p.y) k)
    else old

abbrev pub paint_all : Vector2D → ℕ → List Layer → ℕ → ℕ
paint_all q k [] old = old
paint_all q k (l ∷ ls) old = paint_all q k ls (paint q k l old)

-- A copy changes nothing of the target but its bytes.
pub copy_from_shape :
    (dst src : FrameBuffer) (c : Coords) (tc : Option PixelColor)
    → (b : Bytes) × ((copy_from dst src c tc).1 ≡ record dst { bytes = b })
unfolding copy_from frame_size
copy_from_shape dst src c tc =
    let a =
      adjusted dst.horizontal_resolution dst.vertical_resolution src.horizontal_resolution
        src.vertical_resolution c in
    elim (Bool-cases (same_format src.pixel_format dst.pixel_format)) [
      | inr other ↦ (dst.bytes, rw other)
      | inl same ↦ elim (Bool-cases (leb_ℤ a.size.x (pos 0) || leb_ℤ a.size.y (pos 0))) [
        | inl no_size ↦ (dst.bytes, rw (same, no_size))
        | inr some_size ↦ (copied_bytes dst src a tc, rw (same, some_size))
      ]
    ]

-- Two pairs of rectangles with the same common points.
both_include :
    (r s t u : Rect) (p q : Vector2D)
    → (Inside r p × Inside s p) ↔ (Inside t q × Inside u q)
    → (includes r p && includes s p) ≡ (includes t q && includes u q)
both_include r s t u p q h =
    let left = &&-iff (includes r p) (includes s p) in
    let right = &&-iff (includes t q) (includes u q) in
    Bool-ext _ _ (
      λ e.
          let (a, b) = left.0 e in
          let (c, d) = h.0 ((includes-Inside r p).0 a, (includes-Inside s p).0 b) in
          right.1 ((includes-Inside t q).1 c, (includes-Inside u q).1 d),
      λ e.
          let (a, b) = right.0 e in
          let (c, d) = h.1 ((includes-Inside t q).0 a, (includes-Inside u q).0 b) in
          left.1 ((includes-Inside r p).1 c, (includes-Inside s p).1 d),
    )

module _ (dst : FrameBuffer) (v : IsValid dst) (x y k : ℕ) (hx : x < dst.horizontal_resolution)
    (hy : y < dst.vertical_resolution) (hk : k < 4) where
  abbrev byte_at : ℕ
  byte_at = offset_of 4 dst.pixels_per_scan_line x y k

  -- Where `draw_to` and `draw_to` of a damaged rectangle copy from.
  abbrev pub whole : Layer → Coords
  whole l = record {
    to_pos = l.pos_at;
    src_pos = record { x = pos 0; y = pos 0 };
    size = frame_size l.buffer;
  }

  abbrev pub shared : Rect → Layer → Coords
  shared rect l = record {
    to_pos = top_left (cross rect (manager_area l));
    src_pos = sub (top_left (cross rect (manager_area l))) l.pos_at;
    size = size (cross rect (manager_area l));
  }

  abbrev area_of : Layer → Rect
  area_of l = bounds l.buffer.horizontal_resolution l.buffer.vertical_resolution

  from_local : (px ox sx tx qx : ℤ) → px ≡ qx -ℤ ox → sx ≡ tx -ℤ ox → px -ℤ sx +ℤ tx ≡ qx
  from_local px ox sx tx qx e f = rw (e, f) (omega int_laws)

  whole_points :
      (l : Layer)
      → (includes (part (whole l)) (local l (point x y))
          && includes (area_of l) (local l (point x y)))
        ≡ (includes (manager_area l) (point x y) && includes (manager_area l) (point x y))
  unfolding manager_area corners add frame_size
  whole_points l =
      both_include (part (whole l)) (area_of l) (manager_area l) (manager_area l)
        (local l (point x y)) (point x y) (λ h. omega int_laws, λ h. omega int_laws)

  shared_points :
      (rect : Rect) (l : Layer)
      → (includes (part (shared rect l)) (local l (point x y))
          && includes (area_of l) (local l (point x y)))
        ≡ (includes rect (point x y) && includes (manager_area l) (point x y))
  unfolding manager_area corners add frame_size cross top_left size sub width height
  shared_points rect l =
      both_include (part (shared rect l)) (area_of l) rect (manager_area l) (local l (point x y))
        (point x y) (λ h. omega int_laws, λ h. omega int_laws)

  and_same : (b : Bool) → (b && b) ≡ b
  and_same true = refl
  and_same false = refl

  if_and :
      (a b : Bool) (t e : ℕ) → (if a && b then t else e) ≡ (if a then (if b then t else e) else e)
  if_and true b t e = refl
  if_and false b t e = refl

  pub draw_layer_eq :
      (l : Layer) → draw_layer dst l ≡ (copy_from dst l.buffer (whole l) l.transparent_color).1
  unfolding draw_layer copy_all_from
  draw_layer_eq l = refl

  pub draw_layer-paint :
      (l : Layer)
      → Drawable dst.pixel_format l
      → (draw_layer dst l).bytes byte_at ≡ paint (point x y) k l (dst.bytes byte_at)
  draw_layer-paint l d =
      let e =
        (copy_from-pixel dst l.buffer v d.valid d.bytes l.transparent_color d.color d.format
          (whole l) x y k (local l (point x y)) hx hy hk
          (λ i. record {
            x =
                from_local (local l (point x y)).x l.pos_at.x (pos 0) l.pos_at.x (pos x) refl
                  (omega int_laws) i;
            y =
                from_local (local l (point x y)).y l.pos_at.y (pos 0) l.pos_at.y (pos y) refl
                  (omega int_laws) i;
          })).1 in
      rw (draw_layer_eq l) (rw (whole_points l, and_same) at e)

  not_crossing :
      (rect : Rect) (l : Layer)
      → is_crossing rect (manager_area l) ≡ false
      → (includes rect (point x y) && includes (manager_area l) (point x y)) ≡ false
  not_crossing rect l h = Bool-ext _ false (
    λ both.
        let (i, j) = (&&-iff (includes rect (point x y)) _).0 both in
        sym h
        ∙ is_crossing_at rect (manager_area l) (point x y) ((includes-Inside rect (point x y)).0 i)
            ((includes-Inside (manager_area l) (point x y)).0 j),
    λ never. cc,
  )

  sub_x : (a b : Vector2D) → (sub a b).x ≡ a.x -ℤ b.x
  unfolding sub
  sub_x a b = refl

  sub_y : (a b : Vector2D) → (sub a b).y ≡ a.y -ℤ b.y
  unfolding sub
  sub_y a b = refl

  pub draw_layer_in_apart :
      (rect : Rect) (l : Layer)
      → is_crossing rect (manager_area l) ≡ false
      → draw_layer_in rect dst l ≡ dst
  unfolding draw_layer_in
  draw_layer_in_apart rect l h = rw h

  pub draw_layer_in_meets :
      (rect : Rect) (l : Layer)
      → is_crossing rect (manager_area l) ≡ true
      → draw_layer_in rect dst l ≡ (copy_from dst l.buffer (shared rect l) l.transparent_color).1
  unfolding draw_layer_in
  draw_layer_in_meets rect l h = rw h

  pub draw_layer_in-paint :
      (rect : Rect) (l : Layer)
      → Drawable dst.pixel_format l
      → (draw_layer_in rect dst l).bytes byte_at ≡ (
          if includes rect (point x y)
          then paint (point x y) k l (dst.bytes byte_at)
          else dst.bytes byte_at)
  draw_layer_in-paint rect l d = elim (Bool-cases (is_crossing rect (manager_area l))) [
    | inr apart ↦ rw (draw_layer_in_apart rect l apart, ← if_and, not_crossing rect l apart)
    | inl meets ↦
        let e =
          (copy_from-pixel dst l.buffer v d.valid d.bytes l.transparent_color d.color d.format
            (shared rect l) x y k (local l (point x y)) hx hy hk
            (λ i. record {
              x =
                  from_local (local l (point x y)).x l.pos_at.x (shared rect l).src_pos.x
                    (shared rect l).to_pos.x (pos x) refl
                    (sub_x (top_left (cross rect (manager_area l))) l.pos_at) i;
              y =
                  from_local (local l (point x y)).y l.pos_at.y (shared rect l).src_pos.y
                    (shared rect l).to_pos.y (pos y) refl
                    (sub_y (top_left (cross rect (manager_area l))) l.pos_at) i;
            })).1 in
        rw (draw_layer_in_meets rect l meets, ← if_and) (rw (shared_points rect l) at e)
  ]
