-- ===== src/Graphics/Painter.antt =====
-- kernel/graphics/painter.cpp: the rectangle that a `Painter` reports as damaged when it ends.
pub mod Damage
pub mod Draw
mod Tests
use os_jisaku.Graphics.Geometry.{Rect, Vector2D, bottom_right, corners, max_vec, min_vec, top_left}
use os_jisaku.Prelude.{Bool, Option, false, if◌then◌else◌, none, not, some, true}
use os_jisaku.Prelude.Int.{pos}

pub record Painter : Type 0 where
  pub damaged : Bool
  pub damage_top_left : Vector2D
  pub damage_bottom_right : Vector2D

-- A painter before it paints.
abbrev pub start_paint : Painter
start_paint = record {
  damaged = false;
  damage_top_left = record { x = pos 0; y = pos 0 };
  damage_bottom_right = record { x = pos 0; y = pos 0 };
}

unfoldable pub raw_damage : Painter → Rect → Painter
unfolding top_left bottom_right min_vec max_vec
raw_damage p rect =
    if not p.damaged
    then record {
      damaged = true;
      damage_top_left = top_left rect;
      damage_bottom_right = bottom_right rect;
    }
    else record p {
      damage_top_left = min_vec p.damage_top_left (top_left rect);
      damage_bottom_right = max_vec p.damage_bottom_right (bottom_right rect);
    }

-- `end`: the rectangle that the layer is told about, if there is one.
unfoldable pub end : Painter → Option Rect
unfolding corners
end p = if not p.damaged then none else some (corners p.damage_top_left p.damage_bottom_right)
