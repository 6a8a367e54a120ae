-- ===== src/Graphics/Layers/Redraw.antt =====
-- The redraw of a damaged rectangle against a redraw of the whole stack, and both against the
-- layers' colours laid over each other.
use os_jisaku.Graphics.Color.{Bytes, PixelColor}
use os_jisaku.Graphics.Console.Fast.{drawn}
use os_jisaku.Graphics.Frame.{FrameBuffer, new}
use os_jisaku.Graphics.Frame.Pixels.{offset_of}
use os_jisaku.Graphics.Frame.Valid.{IsValid, skips}
use os_jisaku.Graphics.Geometry.{Rect, Vector2D, includes, is_crossing}
use os_jisaku.Graphics.Geometry.Laws.{includes-Inside, includes_rect-Covers}
use os_jisaku.Graphics.Layers.{
  Layer, draw_damage_to, draw_in, draw_layer_in, draw_to, first_drawn, front_or, has_transparency,
  hides, hiding_from, in_stack, manager_area,
}
use os_jisaku.Graphics.Layers.Hiding.{first_drawn_drawable}
use os_jisaku.Graphics.Layers.Paint.{
  AllDrawable, copy_from_shape, draw_layer-paint, draw_layer_eq, draw_layer_in-paint,
  draw_layer_in_apart, draw_layer_in_meets, local, paint, paint_all, point, shared, whole,
}
use os_jisaku.Prelude.{
  &&-iff, Bool, Bool-cases, List, Option, [], ap, false, if◌then◌else◌, inl, inr, none, not, refl,
  some, some_inj, sym, true, ℕ, ◌<◌, ◌∙◌, ◌∷◌, ◌≡◌,
}
use os_jisaku.Prelude.Int.{int_laws, pos_part}
use os_jisaku.Usb.EventRing.{front}

module _ (dst : FrameBuffer) (v : IsValid dst) (x y k : ℕ) (hx : x < dst.horizontal_resolution)
    (hy : y < dst.vertical_resolution) (hk : k < 4) where
  abbrev pub q : Vector2D
  q = point x y

  abbrev pub offset_at : ℕ
  offset_at = offset_of 4 dst.pixels_per_scan_line x y k

  -- The target with other bytes.
  abbrev pub holding : Bytes → FrameBuffer
  holding b = record dst { bytes = b }

  holding-IsValid : (b : Bytes) → IsValid (holding b)
  holding-IsValid b = record { pitch = v.pitch; small = v.small }

  draw_to_from :
      (stack : List Layer) (b : Bytes)
      → AllDrawable dst.pixel_format stack
      → (draw_to (holding b) stack).bytes offset_at ≡ paint_all q k stack (b offset_at)
  unfolding draw_to
  draw_to_from [] b all = refl
  draw_to_from (l ∷ ls) b (d, all) =
      let ok = holding-IsValid b in
      let (b', shape) =
        copy_from_shape (holding b) l.buffer (whole (holding b) ok x y k hx hy hk l)
          l.transparent_color in
      let drawn = draw_layer_eq (holding b) ok x y k hx hy hk l ∙ shape in
      let painted = draw_layer-paint (holding b) ok x y k hx hy hk l d in
      ap (λ f. (draw_to f ls).bytes offset_at) drawn
      ∙ (draw_to_from ls b' all
          ∙ ap (paint_all q k ls) (sym (ap (λ f. f.bytes offset_at) drawn) ∙ painted))

  -- `draw_layer_in` changes only bytes.
  layer_in_shape :
      (rect : Rect) (l : Layer) (b : Bytes)
      → (b' : Bytes) × (draw_layer_in rect (holding b) l ≡ holding b')
  layer_in_shape rect l b = elim (Bool-cases (is_crossing rect (manager_area l))) [
    | inr apart ↦
        (b, draw_layer_in_apart (holding b) (holding-IsValid b) x y k hx hy hk rect l apart)
    | inl meets ↦
        let (b', shape) =
          copy_from_shape (holding b) l.buffer
            (shared (holding b) (holding-IsValid b) x y k hx hy hk rect l) l.transparent_color in
        (
          b',
          draw_layer_in_meets (holding b) (holding-IsValid b) x y k hx hy hk rect l meets ∙ shape,
        )
  ]

  -- In a damaged rectangle.
  abbrev pub in_rect : Rect → ℕ → ℕ → ℕ
  in_rect rect new old = if includes rect q then new else old

  pub draw_in_from :
      (rect : Rect) (stack : List Layer) (b : Bytes)
      → AllDrawable dst.pixel_format stack
      → (draw_in rect (holding b) stack).bytes offset_at
        ≡ in_rect rect (paint_all q k stack (b offset_at)) (b offset_at)
  unfolding draw_in
  draw_in_from rect [] b all = if_same (includes rect q) (b offset_at)
    where
      if_same : (c : Bool) (n : ℕ) → n ≡ (if c then n else n)
      if_same true n = refl
      if_same false n = refl
  draw_in_from rect (l ∷ ls) b (d, all) =
      let ok = holding-IsValid b in
      let (b', drawn) = layer_in_shape rect l b in
      let painted = draw_layer_in-paint (holding b) ok x y k hx hy hk rect l d in
      let at_byte = sym (ap (λ f. f.bytes offset_at) drawn) ∙ painted in
      let later = draw_in_from rect ls b' all in
      ap (λ f. (draw_in rect f ls).bytes offset_at) drawn
      ∙ (later ∙ elim (Bool-cases (includes rect q)) [
        | inl yes_in ↦ rw (at_byte, yes_in)
        | inr not_in ↦ rw (at_byte, not_in)
      ])

  skips-opaque :
      (l : Layer) (i : ℕ)
      → not (has_transparency l) ≡ true
      → skips l.buffer l.transparent_color i ≡ false
  skips-opaque l i h = by_color l.transparent_color h
    where
      by_color :
          (tc : Option PixelColor)
          → not (elim tc [ some c ↦ true | none ↦ false ]) ≡ true
          → skips l.buffer tc i ≡ false
      by_color none h = refl
      by_color (some c) h = cc

  -- A layer that hides the rectangle leaves nothing of what was there before.
  paint-hides :
      (rect : Rect) (l : Layer) (old old' : ℕ)
      → includes rect q ≡ true
      → hides rect l ≡ true
      → paint q k l old ≡ paint q k l old'
  paint-hides rect l old old' in_r h =
      let (opaque, around) = (&&-iff (not (has_transparency l)) _).0 h in
      let c = (includes_rect-Covers (manager_area l) rect).0 around in
      let i = (includes-Inside rect q).0 in_r in
      let in_area =
        (includes-Inside (manager_area l) q).1
          (omega int_laws, omega int_laws, omega int_laws, omega int_laws) in
      let p = local l q in
      rw (
        in_area,
        skips-opaque l (offset_of 4 l.buffer.pixels_per_scan_line (pos_part p.x) (pos_part p.y) 0)
            opaque,
      )

  -- Below the frontmost layer that hides the rectangle nothing shows.
  hiding_from_shows :
      (rect : Rect) (stack front : List Layer) (old old' : ℕ)
      → includes rect q ≡ true
      → hiding_from rect stack ≡ some front
      → paint_all q k front old ≡ paint_all q k stack old'
  unfolding hiding_from
  hiding_from_shows rect [] front old old' in_r e = cc
  hiding_from_shows rect (l ∷ ls) front old old' in_r e =
      step (hiding_from rect ls) refl
        (λ f in_rest. hiding_from_shows rect ls f old (paint q k l old') in_r in_rest)
    where
      step :
          (r : Option (List Layer))
          → hiding_from rect ls ≡ r
          → ((f : List Layer)
              → hiding_from rect ls ≡ some f
              → paint_all q k f old ≡ paint_all q k ls (paint q k l old'))
          → paint_all q k front old ≡ paint_all q k ls (paint q k l old')
      step (some f) in_rest ih =
          let e' = some_inj (rw (in_rest, hiding_from) at e) in
          ap (λ s. paint_all q k s old) (sym e') ∙ ih f in_rest
      step none absent ih = elim (Bool-cases (hides rect l)) [
        | inl hidden ↦
            let e' = some_inj (rw (absent, hidden, hiding_from) at e) in
            ap (λ s. paint_all q k s old) (sym e')
            ∙ ap (paint_all q k ls) (paint-hides rect l old old' in_r hidden)
        | inr shown ↦ cc (rw (absent, shown, hiding_from) at e)
      ]

  first_drawn_shows :
      (rect : Rect) (stack : List Layer) (old : ℕ)
      → includes rect q ≡ true
      → paint_all q k (first_drawn rect stack) old ≡ paint_all q k stack old
  unfolding first_drawn
  first_drawn_shows rect stack old in_r = step (hiding_from rect stack) refl
    where
      step :
          (r : Option (List Layer))
          → hiding_from rect stack ≡ r
          → paint_all q k (front_or stack r) old ≡ paint_all q k stack old
      step (some f) e = hiding_from_shows rect stack f old old in_r e
      step none e = refl

  -- `draw_to` leaves, byte by byte, the layers' colours laid over each other in the order of the
  -- stack, over what the target held.
  pub draw_to-paint_all :
      (stack : List Layer)
      → AllDrawable dst.pixel_format stack
      → (draw_to dst stack).bytes offset_at ≡ paint_all q k stack (dst.bytes offset_at)
  draw_to-paint_all stack all = draw_to_from stack dst.bytes all

  -- When the damaged layer is in front of all that hides the damaged rectangle, `draw_damage_to`
  -- leaves inside the rectangle what a redraw of the whole stack leaves, and outside it changes
  -- nothing.
  pub draw_damage_to-redraws :
      (id : ℕ) (rect : Rect) (stack : List Layer)
      → AllDrawable dst.pixel_format stack
      → in_stack id (first_drawn rect stack) ≡ true
      → (draw_damage_to dst id rect stack).bytes offset_at
        ≡ (if includes rect q then (draw_to dst stack).bytes offset_at else dst.bytes offset_at)
  unfolding draw_damage_to
  draw_damage_to-redraws id rect stack all shown =
      let drawn =
        draw_in_from rect (first_drawn rect stack) dst.bytes
          (first_drawn_drawable dst.pixel_format rect stack all) in
      rw shown (
        drawn ∙ elim (Bool-cases (includes rect q)) [
          | inl yes_in ↦ rw yes_in (
              first_drawn_shows rect stack (dst.bytes offset_at) yes_in
              ∙ sym (draw_to-paint_all stack all))
          | inr not_in ↦ rw not_in
        ])
