-- ===== src/Graphics/Geometry.antt =====
-- kernel/graphics/primitives.hpp: `Vector2D<int>` and `Rect<int>`. An `int` is an unbounded integer
-- here, since an overflow of `int` is undefined in the source.
pub mod Laws
mod Tests
use os_jisaku.Prelude.{Bool, ◌&&◌}
use os_jisaku.Prelude.Int.{leb_ℤ, ltb_ℤ, max_ℤ, min_ℤ, ℤ, ◌+ℤ◌, ◌-ℤ◌}

pub record Vector2D : Type 0 where
  pub x : ℤ
  pub y : ℤ

unfoldable pub add : Vector2D → Vector2D → Vector2D
add a b = record { x = a.x +ℤ b.x; y = a.y +ℤ b.y }

unfoldable pub sub : Vector2D → Vector2D → Vector2D
sub a b = record { x = a.x -ℤ b.x; y = a.y -ℤ b.y }

unfoldable pub min_vec : Vector2D → Vector2D → Vector2D
min_vec a b = record { x = min_ℤ a.x b.x; y = min_ℤ a.y b.y }

unfoldable pub max_vec : Vector2D → Vector2D → Vector2D
max_vec a b = record { x = max_ℤ a.x b.x; y = max_ℤ a.y b.y }

-- `Vector2D::map` with one further vector.
unfoldable pub map_with : (ℤ → ℤ → ℤ) → Vector2D → Vector2D → Vector2D
map_with op a b = record { x = op a.x b.x; y = op a.y b.y }

pub record Rect : Type 0 where
  pub left : ℤ
  pub top : ℤ
  pub right : ℤ
  pub bottom : ℤ

-- The constructor from two corners, and `with_size`.
unfoldable pub corners : Vector2D → Vector2D → Rect
corners a b = record { left = a.x; top = a.y; right = b.x; bottom = b.y }

unfoldable pub with_size : Vector2D → Vector2D → Rect
unfolding corners add
with_size top_left size = corners top_left (add top_left size)

unfoldable pub top_left : Rect → Vector2D
top_left r = record { x = r.left; y = r.top }

unfoldable pub bottom_right : Rect → Vector2D
bottom_right r = record { x = r.right; y = r.bottom }

unfoldable pub width : Rect → ℤ
width r = r.right -ℤ r.left

unfoldable pub height : Rect → ℤ
height r = r.bottom -ℤ r.top

unfoldable pub size : Rect → Vector2D
unfolding width height
size r = record { x = width r; y = height r }

unfoldable pub offset : Rect → Vector2D → Rect
unfolding corners top_left bottom_right add
offset r diff = corners (add (top_left r) diff) (add (bottom_right r) diff)

unfoldable pub merge : Rect → Rect → Rect
merge r other = record {
  left = min_ℤ r.left other.left;
  top = min_ℤ r.top other.top;
  right = max_ℤ r.right other.right;
  bottom = max_ℤ r.bottom other.bottom;
}

unfoldable pub cross : Rect → Rect → Rect
cross r other = record {
  left = max_ℤ r.left other.left;
  top = max_ℤ r.top other.top;
  right = min_ℤ r.right other.right;
  bottom = min_ℤ r.bottom other.bottom;
}

unfoldable pub is_crossing : Rect → Rect → Bool
is_crossing r other =
    ltb_ℤ r.left other.right
    && ltb_ℤ r.top other.bottom
    && ltb_ℤ other.left r.right
    && ltb_ℤ other.top r.bottom

-- `includes` of a rectangle.
unfoldable pub includes_rect : Rect → Rect → Bool
includes_rect r other =
    leb_ℤ r.left other.left
    && leb_ℤ r.top other.top
    && leb_ℤ other.right r.right
    && leb_ℤ other.bottom r.bottom

-- `includes` of a point.
unfoldable pub includes : Rect → Vector2D → Bool
includes r p = leb_ℤ r.left p.x && leb_ℤ r.top p.y && ltb_ℤ p.x r.right && ltb_ℤ p.y r.bottom
