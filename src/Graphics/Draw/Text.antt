-- ===== src/Graphics/Draw/Text.antt =====
-- kernel/graphics/font.cpp: the pixels that characters and texts paint.
use mathlib.Core.Path.{subst}
use os_jisaku.Graphics.Color.{PixelColor}
use os_jisaku.Graphics.Draw.{
  Font, draw_glyph, font_bit, get_font, write_ascii, write_from, write_glyph, write_string,
}
use os_jisaku.Graphics.Draw.Pictures.{
  Paints, Picture, Points, any_from, any_from-Hit, at_point, for_up-Paints, paint_none, then_paint,
  write_picture, write_picture-Paints,
}
use os_jisaku.Graphics.Draw.Shapes.{at_point_iff}
use os_jisaku.Prelude.{
  &&-iff, ==→≡, Bool, Bool-cases, List, Nat-cases, Option, [], all_below, all_below_sound, arith,
  false, get_elem?, if◌then◌else◌, inl, inr, none, or_iff, refl, same_bool, same_bool-eq, some,
  some_inj, suc, sym, true, ℕ, ◌%◌, ◌&&◌, ◌*◌, ◌+◌, ◌-◌, ◌/◌, ◌<◌, ◌==◌, ◌^◌, ◌||◌, ◌↔◌, ◌∙◌, ◌∷◌,
  ◌≡◌,
}
use os_jisaku.Prelude.Int.{pos, ℤ, ◌+ℤ◌}

-- The bit of a line of a glyph, from the left.
font_bit_table :
    all_below 256
      (λ line. all_below 8 (λ dx. same_bool (font_bit line dx) (line / 2 ^ (7 - dx) % 2 == 1)))
    ≡ true
unfolding font_bit
font_bit_table = refl

-- The pixel (`px`, `py`) belongs to the glyph at (`x`, `y`): line `dy` of its 16 lines has bit `dx`,
-- from the left, of its 8 bits.
abbrev pub InGlyph : Font → ℤ → ℤ → ℕ → ℤ → ℤ → Type 0
InGlyph font x y glyph px py =
    (dx : ℕ) × (dy : ℕ) × (dx < 8)
    × (dy < 16)
    × (px ≡ x +ℤ pos dx)
    × (py ≡ y +ℤ pos dy)
    × (font.bytes (glyph + dy) / 2 ^ (7 - dx) % 2 ≡ 1)

-- The pixel belongs to the glyph of the character `ch`, which has one.
abbrev pub GlyphPixel : Font → ℤ → ℤ → ℕ → ℤ → ℤ → Type 0
GlyphPixel font x y ch px py =
    (glyph : ℕ) × (get_font font ch ≡ some glyph) × InGlyph font x y glyph px py

-- The pixel belongs to the character of the text that stands `k` places to the right.
abbrev pub TextPixel : Font → ℤ → ℤ → ℕ → List ℕ → ℤ → ℤ → Type 0
TextPixel font x y first text px py =
    (k : ℕ) × (ch : ℕ) × (get_elem? text k ≡ some ch)
    × GlyphPixel font (x +ℤ pos ((first + k) * 8)) y ch px py

font_bit_lem :
    (line dx : ℕ) → line < 256 → dx < 8 → (font_bit line dx ≡ true) ↔ (line / 2 ^ (7 - dx) % 2 ≡ 1)
font_bit_lem line dx h k =
    let e = same_bool-eq (font_bit line dx) (line / 2 ^ (7 - dx) % 2 == 1) (
      all_below_sound 8 (λ dx. same_bool (font_bit line dx) (line / 2 ^ (7 - dx) % 2 == 1)) dx
        (all_below_sound 256
          (λ line. all_below 8 (λ dx. same_bool (font_bit line dx) (line / 2 ^ (7 - dx) % 2 == 1)))
          line font_bit_table h)
        k) in
    rw e (λ t. ==→≡ _ _ t, λ t. rw t refl)

module _ (font : Font) where
  glyph_points : ℤ → ℤ → ℕ → Points
  glyph_points x y glyph = any_from 16 0 (λ dy. any_from 8 0 (λ dx px py.
      font_bit (font.bytes (glyph + dy)) dx && at_point (x +ℤ pos dx) (y +ℤ pos dy) px py))

  paint_if :
      (b : Bool) (x y : ℤ) (c : PixelColor)
      → Paints (λ s. if b then write_picture x y c s else s) (λ px py. b && at_point x y px py) c
  paint_if true x y c = write_picture-Paints x y c
  paint_if false x y c = paint_none c

  draw_glyph-Paints :
      (x y : ℤ) (glyph : ℕ) (c : PixelColor)
      → Paints (draw_glyph write_picture font x y glyph c) (glyph_points x y glyph) c
  unfolding glyph_points
  draw_glyph-Paints x y glyph c = for_up-Paints 16 0 _ _ c (λ dy.
      for_up-Paints 8 0 _ _ c
        (λ dx. paint_if (font_bit (font.bytes (glyph + dy)) dx) (x +ℤ pos dx) (y +ℤ pos dy) c))

  glyph_points? : ℤ → ℤ → Option ℕ → Points
  glyph_points? x y none px py = false
  glyph_points? x y (some glyph) px py = glyph_points x y glyph px py

  char_points : ℤ → ℤ → ℕ → Points
  char_points x y ch = glyph_points? x y (get_font font ch)

  write_glyph-points :
      (x y : ℤ) (o : Option ℕ) (c : PixelColor)
      → Paints (write_glyph write_picture font x y o c) (glyph_points? x y o) c
  unfolding glyph_points?
  write_glyph-points x y none c = paint_none c
  write_glyph-points x y (some glyph) c = draw_glyph-Paints x y glyph c

  text_points : ℤ → ℤ → ℕ → List ℕ → Points
  text_points x y first [] px py = false
  text_points x y first (ch ∷ text) px py =
      text_points x y (first + 1) text px py || char_points (x +ℤ pos (first * 8)) y ch px py

  write_ascii-points :
      (x y : ℤ) (ch : ℕ) (c : PixelColor)
      → Paints (write_ascii write_picture font x y ch c) (char_points x y ch) c
  unfolding write_ascii char_points
  write_ascii-points x y ch c = write_glyph-points x y (get_font font ch) c

  write_from-points :
      (x y : ℤ) (first : ℕ) (text : List ℕ) (c : PixelColor)
      → Paints (write_from write_picture font x y first text c) (text_points x y first text) c
  unfolding text_points
  write_from-points x y first [] c = paint_none c
  write_from-points x y first (ch ∷ text) c =
      then_paint (write_ascii write_picture font (x +ℤ pos (first * 8)) y ch c)
        (write_from write_picture font x y (first + 1) text c)
        (char_points (x +ℤ pos (first * 8)) y ch) (text_points x y (first + 1) text) c
        (write_ascii-points (x +ℤ pos (first * 8)) y ch c)
        (write_from-points x y (first + 1) text c)

  module _ (bytes : (i : ℕ) → font.bytes i < 256) where
    glyph_points_iff :
        (x y : ℤ) (o : Option ℕ) (px py : ℤ)
        → (glyph_points? x y o px py ≡ true)
          ↔ ((glyph : ℕ) × (o ≡ some glyph) × InGlyph font x y glyph px py)
    unfolding glyph_points? glyph_points
    glyph_points_iff x y none px py = (λ h. cc, λ h. cc (h.1))
    glyph_points_iff x y (some glyph) px py =
        let bit =
          λ (dx : ℕ) (dy : ℕ). font_bit_lem (font.bytes (glyph + dy)) dx (bytes (glyph + dy)) in
        let line = λ (dy : ℕ) (dx : ℕ) (px : ℤ) (py : ℤ).
          font_bit (font.bytes (glyph + dy)) dx && at_point (x +ℤ pos dx) (y +ℤ pos dy) px py in
        (
          λ h.
              let (dy, _, v, r) = (any_from-Hit 16 0 (λ dy. any_from 8 0 (line dy)) px py).0 h in
              let (dx, _, u, p) = (any_from-Hit 8 0 (line dy) px py).0 r in
              let (b, e) =
                (&&-iff (font_bit (font.bytes (glyph + dy)) dx)
                    (at_point (x +ℤ pos dx) (y +ℤ pos dy) px py)).0
                  p in
              let (ex, ey) = (at_point_iff (x +ℤ pos dx) (y +ℤ pos dy) px py).0 e in
              (
                glyph,
                refl,
                (dx, dy, omega arith, omega arith, ex, ey, (bit dx dy (omega arith)).0 b),
              ),
          λ (glyph', e, (dx, dy, u, v, ex, ey, b)).
              let same : glyph' ≡ glyph = sym (some_inj e) in
              (any_from-Hit 16 0 (λ dy. any_from 8 0 (line dy)) px py).1 (
                dy,
                omega arith,
                omega arith,
                (any_from-Hit 8 0 (line dy) px py).1 (
                  dx,
                  omega arith,
                  omega arith,
                  (&&-iff (font_bit (font.bytes (glyph + dy)) dx)
                        (at_point (x +ℤ pos dx) (y +ℤ pos dy) px py)).1
                      (
                        (bit dx dy u).1 (rw same at b),
                        (at_point_iff (x +ℤ pos dx) (y +ℤ pos dy) px py).1 (ex, ey),
                      ),
                ),
              ),
        )

    text_points_iff :
        (x y : ℤ) (first : ℕ) (text : List ℕ) (px py : ℤ)
        → (text_points x y first text px py ≡ true) ↔ TextPixel font x y first text px py
    unfolding text_points char_points
    text_points_iff x y first [] px py = (λ h. cc, λ h. cc (h.2))
    text_points_iff x y first (ch ∷ text) px py =
        let both =
          or_iff (text_points x y (first + 1) text px py)
            (char_points (x +ℤ pos (first * 8)) y ch px py) in
        let rest = text_points_iff x y (first + 1) text px py in
        let here = glyph_points_iff (x +ℤ pos (first * 8)) y (get_font font ch) px py in
        let shift = λ (k : ℕ). let e : (first + 1 + k) ≡ first + suc k = omega arith in e in
        let same : first ≡ first + 0 = omega arith in
        (
          λ h. elim (both.0 h) [
            | inl a ↦ let (k, c, e, g) = rest.0 a in (suc k, c, e, rw (shift k) at g)
            | inr a ↦ (
              0,
              ch,
              refl,
              subst (λ n. GlyphPixel font (x +ℤ pos (n * 8)) y ch px py) same (here.0 a),
            )
          ],
          λ (k, c, e, g). both.1 (elim (Nat-cases k) [
            | inl z ↦ inr (
                here.1 (
                  subst (λ ch. GlyphPixel font (x +ℤ pos (first * 8)) y ch px py)
                    (some_inj (sym (rw z at e)))
                    (subst (λ n. GlyphPixel font (x +ℤ pos (n * 8)) y c px py) (sym same)
                      (rw z at g))))
            | inr (j, z) ↦ inl (rest.1 (j, c, rw z at e, rw (shift j) (rw z at g)))
          ]),
        )

    -- When the font's bytes are bytes, `write_string` gives its colour to exactly the pixels of its
    -- characters, each eight pixels to the right of the one before: bit `dx` from the left of line
    -- `dy` of the glyph, for a character that has one. All other pixels stay.
    pub write_string-pixels :
        (x y : ℤ) (text : List ℕ) (color : PixelColor) (picture : Picture) (px py : ℤ)
        → (TextPixel font x y 0 text px py
            → write_string write_picture font x y text color picture px py ≡ color)
          × (¬ TextPixel font x y 0 text px py
              → write_string write_picture font x y text color picture px py ≡ picture px py)
    unfolding write_string
    write_string-pixels x y text color picture px py =
        let painted = write_from-points x y 0 text color picture px py in
        let points = text_points_iff x y 0 text px py in
        (
          λ h. painted ∙ rw (points.1 h),
          λ h. elim (Bool-cases (text_points x y 0 text px py)) [
            | inl e ↦ absurd (h (points.0 e))
            | inr e ↦ painted ∙ rw e
          ],
        )
