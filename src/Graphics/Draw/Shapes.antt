-- ===== src/Graphics/Draw/Shapes.antt =====
-- kernel/graphics/graphics.cpp: the points that the rectangles paint.
use os_jisaku.Graphics.Color.{PixelColor}
use os_jisaku.Graphics.Draw.{draw_filled_rectangle}
use os_jisaku.Graphics.Draw.Pictures.{
  Paints, Points, any_from, any_from-Hit, at_point, for_up-Paints, same_ℤ, same_ℤ-iff,
  write_picture, write_picture-Paints,
}
use os_jisaku.Graphics.Frame.Clip.{extent}
use os_jisaku.Graphics.Geometry.{Vector2D, includes, with_size}
use os_jisaku.Graphics.Geometry.Laws.{Inside, includes-Inside}
use os_jisaku.Prelude.{&&-iff, Bool-ext, ap, arith, if◌then◌else◌, true, ℕ, ◌<◌, ◌↔◌, ◌∙◌, ◌≡◌}
use os_jisaku.Prelude.Int.{
  int_laws, neg_part, one_sign, pos, pos-pos_part, pos_part, ℤ, ◌+ℤ◌, ◌-ℤ◌, ◌<ℤ◌, ◌≤ℤ◌,
}

-- Every point of a rectangle is at some distance from its corner.
offset_from : (a b : ℤ) → a ≤ℤ b → (i : ℕ) × (b ≡ a +ℤ pos i)
offset_from a b h =
    let d = pos-pos_part (b -ℤ a) (omega int_laws) in (pos_part (b -ℤ a), rw d (omega int_laws))

pub across :
    (at extent x : ℤ)
    → at ≤ℤ x
    → x <ℤ at +ℤ extent
    → (i : ℕ) × (i < pos_part extent) × (x ≡ at +ℤ pos i)
across at extent x l u =
    let (i, e) = offset_from at x l in
    (i, grind (int_laws, one_sign extent, ap pos_part e, ap neg_part e), e)

-- The rectangle with a corner and a size, as a set of points.
abbrev pub area : Vector2D → Vector2D → Points
area at extent x y = includes (with_size at extent) (record { x = x; y = y })

pub area-Inside :
    (at extent : Vector2D) (x y : ℤ)
    → (area at extent x y ≡ true) ↔ Inside (with_size at extent) (record { x = x; y = y })
area-Inside at extent x y = includes-Inside (with_size at extent) (record { x = x; y = y })

pub at_point_iff : (x y px py : ℤ) → (at_point x y px py ≡ true) ↔ ((px ≡ x) × (py ≡ y))
at_point_iff x y px py = (
  λ h.
      let (a, b) = (&&-iff (same_ℤ px x) (same_ℤ py y)).0 h in
      ((same_ℤ-iff px x).0 a, (same_ℤ-iff py y).0 b),
  λ (a, b). (&&-iff (same_ℤ px x) (same_ℤ py y)).1 ((same_ℤ-iff px x).1 a, (same_ℤ-iff py y).1 b),
)

pub inside :
    (at extent : Vector2D) (x y : ℤ) (dx dy : ℕ)
    → dx < pos_part extent.x
    → dy < pos_part extent.y
    → x ≡ at.x +ℤ pos dx
    → y ≡ at.y +ℤ pos dy
    → Inside (with_size at extent) (record { x = x; y = y })
unfolding with_size
inside at extent x y dx dy u v ex ey = grind (
  int_laws,
  one_sign extent.x,
  one_sign extent.y,
  ap pos_part ex,
  ap neg_part ex,
  ap pos_part ey,
  ap neg_part ey,
)

-- `draw_filled_rectangle` gives its colour to the points of the rectangle with that corner and
-- size, also when a side is negative, and to no other.
pub draw_filled_rectangle-Paints :
    (at extent : Vector2D) (c : PixelColor)
    → Paints (draw_filled_rectangle write_picture at extent c) (area at extent) c
unfolding draw_filled_rectangle with_size
draw_filled_rectangle-Paints at extent c picture x y =
    let row = λ (dy : ℕ).
      any_from (pos_part extent.x) 0 (λ dx. at_point (at.x +ℤ pos dx) (at.y +ℤ pos dy)) in
    for_up-Paints (pos_part extent.y) 0 _ row c
      (λ dy. for_up-Paints (pos_part extent.x) 0 _ _ c (λ dx. write_picture-Paints _ _ c)) picture x
      y
    ∙ ap (λ b. if b then c else picture x y)
        (Bool-ext _ _ (
          λ h.
              let (dy, _, v, r) = (any_from-Hit (pos_part extent.y) 0 row x y).0 h in
              let (dx, _, u, p) =
                (any_from-Hit (pos_part extent.x) 0
                    (λ dx. at_point (at.x +ℤ pos dx) (at.y +ℤ pos dy)) x y).0
                  r in
              let (ex, ey) = (at_point_iff (at.x +ℤ pos dx) (at.y +ℤ pos dy) x y).0 p in
              (area-Inside at extent x y).1
                (inside at extent x y dx dy (omega arith) (omega arith) ex ey),
          λ h.
              let (l, t, r, b) = (area-Inside at extent x y).0 h in
              let (dx, u, ex) = across at.x extent.x x l r in
              let (dy, v, ey) = across at.y extent.y y t b in
              (any_from-Hit (pos_part extent.y) 0 row x y).1 (
                dy,
                omega arith,
                omega arith,
                (any_from-Hit (pos_part extent.x) 0
                      (λ dx. at_point (at.x +ℤ pos dx) (at.y +ℤ pos dy)) x y).1
                    (
                      dx,
                      omega arith,
                      omega arith,
                      (at_point_iff (at.x +ℤ pos dx) (at.y +ℤ pos dy) x y).1 (ex, ey),
                    ),
              ),
        ))
