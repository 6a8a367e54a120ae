-- ===== src/Graphics/Draw/Outline.antt =====
-- kernel/graphics/graphics.cpp: `draw_rectangle` paints an outline one pixel wide.
use os_jisaku.Graphics.Color.{PixelColor}
use os_jisaku.Graphics.Draw.{draw_across, draw_down, draw_rectangle, for_up}
use os_jisaku.Graphics.Draw.Pictures.{Paints, Points, any_from, then_paint, write_picture}
use os_jisaku.Graphics.Draw.Shapes.{across, area, area-Inside}
use os_jisaku.Graphics.Draw.Pairs.{two_points, two_points_iff, two_points-Paints}
use os_jisaku.Graphics.Frame.Clip.{extent}
use os_jisaku.Graphics.Geometry.{Rect, Vector2D, includes, with_size}
use os_jisaku.Graphics.Geometry.Laws.{Inside, includes-Inside}
use os_jisaku.Prelude.{
  &&-iff, Bool-cases, Bool-ext, ap, arith, if◌then◌else◌, inl, inr, leb→le, leb→lt, not, or_iff,
  true, ℕ, ◌&&◌, ◌||◌, ◌↔◌, ◌∙◌, ◌≡◌, ◌⊎◌,
}
use os_jisaku.Prelude.Int.{
  int_laws, leb_ℤ, neg_part, one_sign, pos, pos_part, ℤ, ≤ℤ_antisymm, ◌+ℤ◌, ◌-ℤ◌, ◌<ℤ◌, ◌≤ℤ◌,
}

-- A point of the outline lies in the rectangle, and not in what a border one pixel wide leaves.
unfoldable pub on_outline : Vector2D → Vector2D → Points
unfolding includes with_size
on_outline at extent x y =
    area at extent x y
    && not (
        includes
          (record {
            left = at.x +ℤ pos 1;
            top = at.y +ℤ pos 1;
            right = at.x +ℤ extent.x -ℤ pos 1;
            bottom = at.y +ℤ extent.y -ℤ pos 1;
          })
          (record { x = x; y = y }))

Inner : Vector2D → Vector2D → ℤ → ℤ → Type 0
Inner at extent x y =
    (at.x +ℤ pos 1 ≤ℤ x)
    × (at.y +ℤ pos 1 ≤ℤ y)
    × (x <ℤ at.x +ℤ extent.x -ℤ pos 1)
    × (y <ℤ at.y +ℤ extent.y -ℤ pos 1)

Border : Vector2D → Vector2D → ℤ → ℤ → Type 0
Border at extent x y =
    ((x ≡ at.x +ℤ extent.x -ℤ pos 1) ⊎ (x ≡ at.x)) ⊎ ((y ≡ at.y +ℤ extent.y -ℤ pos 1) ⊎ (y ≡ at.y))

Border-outer : (at extent : Vector2D) (x y : ℤ) → Border at extent x y → ¬ Inner at extent x y
unfolding Border Inner
Border-outer at extent x y (inl (inl e)) h = omega (int_laws, ap pos_part e, ap neg_part e)
Border-outer at extent x y (inl (inr e)) h = omega (int_laws, ap pos_part e, ap neg_part e)
Border-outer at extent x y (inr (inl e)) h = omega (int_laws, ap pos_part e, ap neg_part e)
Border-outer at extent x y (inr (inr e)) h = omega (int_laws, ap pos_part e, ap neg_part e)

-- A point that does not pass one of four tests.
decide_le : (a b : ℤ) → (a ≤ℤ b) ⊎ (b <ℤ a)
decide_le a b = elim (Bool-cases (leb_ℤ a b)) [
  | inl h ↦ inl (leb→le _ _ h)
  | inr h ↦ inr (omega (arith, leb→lt _ _ h))
]

Inside-Border :
    (at extent : Vector2D) (x y : ℤ)
    → Inside (with_size at extent) (record { x = x; y = y })
    → ¬ Inner at extent x y
    → Border at extent x y
unfolding Border Inner with_size
Inside-Border at extent x y (l, t, r, b) out = elim (decide_le (at.x +ℤ pos 1) x) [
  | inr h ↦ inl (inr (≤ℤ_antisymm x at.x (omega int_laws) l))
  | inl hl ↦ elim (decide_le (at.y +ℤ pos 1) y) [
    | inr h ↦ inr (inr (≤ℤ_antisymm y at.y (omega int_laws) t))
    | inl ht ↦ elim (decide_le (at.x +ℤ extent.x -ℤ pos 1) x) [
      | inl h ↦ inl (inl (≤ℤ_antisymm x (at.x +ℤ extent.x -ℤ pos 1) (omega int_laws) h))
      | inr hr ↦ elim (decide_le (at.y +ℤ extent.y -ℤ pos 1) y) [
        | inl h ↦ inr (inl (≤ℤ_antisymm y (at.y +ℤ extent.y -ℤ pos 1) (omega int_laws) h))
        | inr hb ↦ absurd (out (hl, ht, hr, hb))
      ]
    ]
  ]
]

on_outline-Outline :
    (at extent : Vector2D) (x y : ℤ)
    → (on_outline at extent x y ≡ true)
      ↔ (Inside (with_size at extent) (record { x = x; y = y }) × Border at extent x y)
unfolding on_outline Inner Border
on_outline-Outline at extent x y =
    let inner : Rect = record {
      left = at.x +ℤ pos 1;
      top = at.y +ℤ pos 1;
      right = at.x +ℤ extent.x -ℤ pos 1;
      bottom = at.y +ℤ extent.y -ℤ pos 1;
    } in
    let p : Vector2D = record { x = x; y = y } in
    let both = &&-iff (area at extent x y) (not (includes inner p)) in
    (
      λ h.
          let (a, b) = both.0 h in
          (
            (area-Inside at extent x y).0 a,
            Inside-Border at extent x y ((area-Inside at extent x y).0 a)
                (λ i. cc (b, (includes-Inside inner p).1 i)),
          ),
      λ (a, b). both.1 (
        (area-Inside at extent x y).1 a,
        elim (Bool-cases (includes inner p)) [
          | inl e ↦ absurd (Border-outer at extent x y b ((includes-Inside inner p).0 e))
          | inr e ↦ rw e
        ],
      ),
    )

abbrev across_points : Vector2D → Vector2D → ℕ → Points
across_points at extent =
    two_points (λ i. at.x +ℤ pos i) (λ i. at.y +ℤ extent.y -ℤ pos 1) (λ i. at.x +ℤ pos i)
      (λ i. at.y)

abbrev down_points : Vector2D → Vector2D → ℕ → Points
down_points at extent =
    two_points (λ i. at.x +ℤ extent.x -ℤ pos 1) (λ i. at.y +ℤ pos i) (λ i. at.x)
      (λ i. at.y +ℤ pos i)

-- A point of the border of a rectangle that is not empty is painted in a round of one of the loops, and no
-- other point is.
painted-Border :
    (at extent : Vector2D) (x y : ℤ)
    → pos 0 <ℤ extent.x
    → pos 0 <ℤ extent.y
    → ((any_from (pos_part extent.y) 0 (down_points at extent) x y
          || any_from (pos_part extent.x) 0 (across_points at extent) x y)
        ≡ true)
      ↔ (Inside (with_size at extent) (record { x = x; y = y }) × Border at extent x y)
unfolding Border with_size
painted-Border at extent x y hx hy =
    let both =
      or_iff (any_from (pos_part extent.y) 0 (down_points at extent) x y)
        (any_from (pos_part extent.x) 0 (across_points at extent) x y) in
    let down =
      two_points_iff (λ i. at.x +ℤ extent.x -ℤ pos 1) (λ i. at.y +ℤ pos i) (λ i. at.x)
        (λ i. at.y +ℤ pos i) (pos_part extent.y) x y in
    let over =
      two_points_iff (λ i. at.x +ℤ pos i) (λ i. at.y +ℤ extent.y -ℤ pos 1) (λ i. at.x +ℤ pos i)
        (λ i. at.y) (pos_part extent.x) x y in
    (
      λ h. elim (both.0 h) [
        | inl d ↦
            let (i, u, e) = down.0 d in
            elim e [
              | inl (ex, ey) ↦ (
                grind (
                  int_laws,
                  one_sign extent.y,
                  ap pos_part ex,
                  ap neg_part ex,
                  ap pos_part ey,
                  ap neg_part ey,
                ),
                inl (inl ex),
              )
              | inr (ex, ey) ↦ (
                grind (
                  int_laws,
                  one_sign extent.y,
                  ap pos_part ex,
                  ap neg_part ex,
                  ap pos_part ey,
                  ap neg_part ey,
                ),
                inl (inr ex),
              )
            ]
        | inr a ↦
            let (i, u, e) = over.0 a in
            elim e [
              | inl (ex, ey) ↦ (
                grind (
                  int_laws,
                  one_sign extent.x,
                  ap pos_part ex,
                  ap neg_part ex,
                  ap pos_part ey,
                  ap neg_part ey,
                ),
                inr (inl ey),
              )
              | inr (ex, ey) ↦ (
                grind (
                  int_laws,
                  one_sign extent.x,
                  ap pos_part ex,
                  ap neg_part ex,
                  ap pos_part ey,
                  ap neg_part ey,
                ),
                inr (inr ey),
              )
            ]
      ],
      λ ((l, t, r, b), border).
          let (i, u, ex) = across at.x extent.x x l r in
          let (j, v, ey) = across at.y extent.y y t b in
          elim border [
            | inl (inl e) ↦ both.1 (inl (down.1 (j, v, inl (e, ey))))
            | inl (inr e) ↦ both.1 (inl (down.1 (j, v, inr (e, ey))))
            | inr (inl e) ↦ both.1 (inr (over.1 (i, u, inl (ex, e))))
            | inr (inr e) ↦ both.1 (inr (over.1 (i, u, inr (ex, e))))
          ],
    )

-- `draw_rectangle` gives its colour to exactly the points of the outline, one pixel wide, of a
-- rectangle that is at least one pixel wide and high.
pub draw_rectangle-Paints :
    (at extent : Vector2D) (c : PixelColor)
    → pos 0 <ℤ extent.x
    → pos 0 <ℤ extent.y
    → Paints (draw_rectangle write_picture at extent c) (on_outline at extent) c
unfolding draw_rectangle
draw_rectangle-Paints at extent c hx hy picture x y =
    then_paint (for_up (pos_part extent.x) 0 (draw_across write_picture at extent c))
      (for_up (pos_part extent.y) 0 (draw_down write_picture at extent c))
      (any_from (pos_part extent.x) 0 (across_points at extent))
      (any_from (pos_part extent.y) 0 (down_points at extent)) c
      (two_points-Paints (λ i. at.x +ℤ pos i) (λ i. at.y +ℤ extent.y -ℤ pos 1) (λ i. at.x +ℤ pos i)
        (λ i. at.y) (pos_part extent.x) c)
      (two_points-Paints (λ i. at.x +ℤ extent.x -ℤ pos 1) (λ i. at.y +ℤ pos i) (λ i. at.x)
        (λ i. at.y +ℤ pos i) (pos_part extent.y) c)
      picture x y
    ∙ ap (λ b. if b then c else picture x y)
        (Bool-ext _ _ (
          λ h. (on_outline-Outline at extent x y).1 ((painted-Border at extent x y hx hy).0 h),
          λ h. (painted-Border at extent x y hx hy).1 ((on_outline-Outline at extent x y).0 h),
        ))

pub on_outline-area :
    (at extent : Vector2D) (x y : ℤ) → on_outline at extent x y ≡ true → area at extent x y ≡ true
unfolding on_outline
on_outline-area at extent x y h = ((&&-iff (area at extent x y) _).0 h).0
