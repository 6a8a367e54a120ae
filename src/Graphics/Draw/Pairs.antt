-- ===== src/Graphics/Draw/Pairs.antt =====
-- kernel/graphics/graphics.cpp: a loop that writes two pixels in each round.
use os_jisaku.Graphics.Color.{PixelColor}
use os_jisaku.Graphics.Draw.{for_up}
use os_jisaku.Graphics.Draw.Pictures.{
  Paints, Points, any_from, any_from-Hit, at_point, for_up-Paints, then_paint, write_picture,
  write_picture-Paints,
}
use os_jisaku.Graphics.Draw.Shapes.{at_point_iff}
use os_jisaku.Prelude.{arith, inl, inr, or_iff, true, ℕ, ◌<◌, ◌||◌, ◌↔◌, ◌≡◌, ◌⊎◌}
use os_jisaku.Prelude.Int.{ℤ}

-- The rounds of one of the two loops: two points each.
pub two_points : (ℕ → ℤ) → (ℕ → ℤ) → (ℕ → ℤ) → (ℕ → ℤ) → ℕ → Points
two_points x y x' y' i px py = at_point (x i) (y i) px py || at_point (x' i) (y' i) px py

pub two_points_iff :
    (x y x' y' : ℕ → ℤ) (n : ℕ) (px py : ℤ)
    → (any_from n 0 (two_points x y x' y') px py ≡ true)
      ↔ ((i : ℕ) × (i < n) × (((px ≡ x i) × (py ≡ y i)) ⊎ ((px ≡ x' i) × (py ≡ y' i))))
unfolding two_points
two_points_iff x y x' y' n px py =
    let hits = any_from-Hit n 0 (two_points x y x' y') px py in
    (
      λ h.
          let (i, _, u, e) = hits.0 h in
          (
            i,
            omega arith,
            elim ((or_iff (at_point (x i) (y i) px py) (at_point (x' i) (y' i) px py)).0 e) [
              | inl a ↦ inl ((at_point_iff (x i) (y i) px py).0 a)
              | inr a ↦ inr ((at_point_iff (x' i) (y' i) px py).0 a)
            ],
          ),
      λ (i, u, e). hits.1 (
        i,
        omega arith,
        omega arith,
        (or_iff (at_point (x i) (y i) px py) (at_point (x' i) (y' i) px py)).1 (elim e [
          | inl a ↦ inl ((at_point_iff (x i) (y i) px py).1 a)
          | inr a ↦ inr ((at_point_iff (x' i) (y' i) px py).1 a)
        ]),
      ),
    )

pub two_points-Paints :
    (x y x' y' : ℕ → ℤ) (n : ℕ) (c : PixelColor)
    → Paints
        (for_up n 0 (λ i s. write_picture (x i) (y i) c (write_picture (x' i) (y' i) c s)))
        (any_from n 0 (two_points x y x' y'))
        c
unfolding two_points
two_points-Paints x y x' y' n c = for_up-Paints n 0 _ (two_points x y x' y') c (λ i.
    then_paint (write_picture (x' i) (y' i) c) (write_picture (x i) (y i) c)
      (at_point (x' i) (y' i)) (at_point (x i) (y i)) c (write_picture-Paints (x' i) (y' i) c)
      (write_picture-Paints (x i) (y i) c))
