-- ===== src/Graphics/Geometry/Laws.antt =====
-- A rectangle as its set of points: what the operations on rectangles mean for points.
use os_jisaku.Graphics.Geometry.{
  Rect, Vector2D, add, cross, includes, includes_rect, is_crossing, merge, offset,
}
use os_jisaku.Prelude.{
  &&-iff, &&-iff_four, Bool-ext, arith, leb→le, le→leb, ltb→lt, lt→ltb, true, ◌&&◌, ◌↔◌, ◌≡◌,
}
use os_jisaku.Prelude.Int.{int_laws, leb_ℤ, ltb_ℤ, max_ℤ, pos, ℤ, ◌-ℤ◌, ◌<ℤ◌, ◌≤ℤ◌}

-- The point lies in the rectangle.
abbrev pub Inside : Rect → Vector2D → Type 0
Inside r p = (r.left ≤ℤ p.x) × (r.top ≤ℤ p.y) × (p.x <ℤ r.right) × (p.y <ℤ r.bottom)

-- All of `s` lies in `r`, side by side.
abbrev pub Covers : Rect → Rect → Type 0
Covers r s = (r.left ≤ℤ s.left) × (r.top ≤ℤ s.top) × (s.right ≤ℤ r.right) × (s.bottom ≤ℤ r.bottom)

-- `includes` decides whether a point lies in a rectangle.
pub includes-Inside : (r : Rect) (p : Vector2D) → (includes r p ≡ true) ↔ Inside r p
unfolding includes
includes-Inside r p =
    let parts =
      &&-iff_four (leb_ℤ r.left p.x) (leb_ℤ r.top p.y) (ltb_ℤ p.x r.right) (ltb_ℤ p.y r.bottom) in
    (
      λ h. let (a, b, c, d) = parts.0 h in (leb→le _ _ a, leb→le _ _ b, ltb→lt _ _ c, ltb→lt _ _ d),
      λ (a, b, c, d). parts.1 (le→leb _ _ a, le→leb _ _ b, lt→ltb _ _ c, lt→ltb _ _ d),
    )

pub includes_rect-Covers : (r s : Rect) → (includes_rect r s ≡ true) ↔ Covers r s
unfolding includes_rect
includes_rect-Covers r s =
    let parts =
      &&-iff_four (leb_ℤ r.left s.left) (leb_ℤ r.top s.top) (leb_ℤ s.right r.right)
        (leb_ℤ s.bottom r.bottom) in
    (
      λ h. let (a, b, c, d) = parts.0 h in (leb→le _ _ a, leb→le _ _ b, leb→le _ _ c, leb→le _ _ d),
      λ (a, b, c, d). parts.1 (le→leb _ _ a, le→leb _ _ b, le→leb _ _ c, le→leb _ _ d),
    )

-- The points of `cross` are the common points.
pub Inside-cross : (r s : Rect) (p : Vector2D) → Inside (cross r s) p ↔ (Inside r p × Inside s p)
unfolding cross
Inside-cross r s p = (λ h. omega int_laws, λ h. omega int_laws)

-- A point is in `cross` exactly when it is in both rectangles.
pub includes-cross :
    (r s : Rect) (p : Vector2D) → includes (cross r s) p ≡ (includes r p && includes s p)
includes-cross r s p =
    let both = &&-iff (includes r p) (includes s p) in
    Bool-ext _ _ (
      λ h.
          let (a, b) = (Inside-cross r s p).0 ((includes-Inside (cross r s) p).0 h) in
          both.1 ((includes-Inside r p).1 a, (includes-Inside s p).1 b),
      λ h.
          let (a, b) = both.0 h in
          (includes-Inside (cross r s) p).1
            ((Inside-cross r s p).1 ((includes-Inside r p).0 a, (includes-Inside s p).0 b)),
    )

-- `merge` includes both rectangles, and any rectangle that includes both includes it.
pub includes_rect-merge :
    (r s t : Rect) → includes_rect t (merge r s) ≡ (includes_rect t r && includes_rect t s)
includes_rect-merge r s t =
    let both = &&-iff (includes_rect t r) (includes_rect t s) in
    Bool-ext _ _ (
      λ h.
          let c = (includes_rect-Covers t (merge r s)).0 h in
          let (a, b) = (Covers-merge t r s).0 c in
          both.1 ((includes_rect-Covers t r).1 a, (includes_rect-Covers t s).1 b),
      λ h.
          let (a, b) = both.0 h in
          (includes_rect-Covers t (merge r s)).1 (
            (Covers-merge t r s).1
              ((includes_rect-Covers t r).0 a, (includes_rect-Covers t s).0 b)),
    )
  where
    Covers-merge : (t r s : Rect) → Covers t (merge r s) ↔ (Covers t r × Covers t s)
    Covers-merge t r s = unfold merge in (λ h. omega int_laws, λ h. omega int_laws)

-- A rectangle with points, as opposed to an empty one.
abbrev pub HasPoints : Rect → Type 0
HasPoints r = (r.left <ℤ r.right) × (r.top <ℤ r.bottom)

abbrev one : ℤ
one = pos 1

-- For a rectangle with points, `includes_rect` holds exactly when all its points lie in the other.
pub includes_rect-points :
    (r s : Rect)
    → HasPoints s
    → (includes_rect r s ≡ true) ↔ ((p : Vector2D) → includes s p ≡ true → includes r p ≡ true)
includes_rect-points r s some_points = (
  λ h p inside.
      let c = (includes_rect-Covers r s).0 h in
      let i = (includes-Inside s p).0 inside in (includes-Inside r p).1 (omega arith),
  λ all.
      let first : Vector2D = record { x = s.left; y = s.top } in
      let last : Vector2D = record { x = s.right -ℤ one; y = s.bottom -ℤ one } in
      let a =
        (includes-Inside r first).0 (all first ((includes-Inside s first).1 (omega int_laws))) in
      let b = (includes-Inside r last).0 (all last ((includes-Inside s last).1 (omega int_laws))) in
      (includes_rect-Covers r s).1 (omega int_laws),
)

-- Rectangles with a common point cross.
pub is_crossing_at : (r s : Rect) (p : Vector2D) → Inside r p → Inside s p → is_crossing r s ≡ true
unfolding is_crossing
is_crossing_at r s p i j =
    (&&-iff_four (ltb_ℤ r.left s.right) (ltb_ℤ r.top s.bottom) (ltb_ℤ s.left r.right)
        (ltb_ℤ s.top r.bottom)).1
      (
        lt→ltb _ _ (omega arith),
        lt→ltb _ _ (omega arith),
        lt→ltb _ _ (omega arith),
        lt→ltb _ _ (omega arith),
      )

-- Two rectangles with points cross exactly when a point lies in both.
pub is_crossing-common :
    (r s : Rect)
    → HasPoints r
    → HasPoints s
    → (is_crossing r s ≡ true) ↔ ((p : Vector2D) × (includes r p ≡ true) × (includes s p ≡ true))
unfolding is_crossing
is_crossing-common r s some_r some_s =
    let parts =
      &&-iff_four (ltb_ℤ r.left s.right) (ltb_ℤ r.top s.bottom) (ltb_ℤ s.left r.right)
        (ltb_ℤ s.top r.bottom) in
    (
      λ h.
          let (a, b, c, d) = parts.0 h in
          let a' : r.left <ℤ s.right = ltb→lt _ _ a in
          let b' : r.top <ℤ s.bottom = ltb→lt _ _ b in
          let c' : s.left <ℤ r.right = ltb→lt _ _ c in
          let d' : s.top <ℤ r.bottom = ltb→lt _ _ d in
          let p : Vector2D = record { x = max_ℤ r.left s.left; y = max_ℤ r.top s.top } in
          (p, (includes-Inside r p).1 (omega int_laws), (includes-Inside s p).1 (omega int_laws)),
      λ (p, in_r, in_s).
          is_crossing_at r s p ((includes-Inside r p).0 in_r) ((includes-Inside s p).0 in_s),
    )

-- Moving a rectangle moves its points, and keeps its size.
pub includes-offset : (r : Rect) (d p : Vector2D) → includes (offset r d) (add p d) ≡ includes r p
includes-offset r d p = Bool-ext _ _ (
  λ h.
      (includes-Inside r p).1
        ((Inside-offset r d p).0 ((includes-Inside (offset r d) (add p d)).0 h)),
  λ h.
      (includes-Inside (offset r d) (add p d)).1
        ((Inside-offset r d p).1 ((includes-Inside r p).0 h)),
)
  where
    Inside-offset : (r : Rect) (d p : Vector2D) → Inside (offset r d) (add p d) ↔ Inside r p
    Inside-offset r d p = unfold offset add in (λ h. omega int_laws, λ h. omega int_laws)
