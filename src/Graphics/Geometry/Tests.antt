-- ===== src/Graphics/Geometry/Tests.antt =====
-- Rectangles on and off the screen, and the theorems at these inputs.
use os_jisaku.Graphics.Geometry.{Rect, cross}
use os_jisaku.Prelude.{refl, ◌≡◌}
use os_jisaku.Prelude.Int.{max_ℤ, min_ℤ, negsuc, pos}

abbrev screen : Rect
screen = record { left = pos 0; top = pos 0; right = pos 640; bottom = pos 400 }

abbrev window : Rect
window = record { left = negsuc 9; top = pos 300; right = pos 150; bottom = pos 500 }

cross-window :
    cross screen window ≡ record { left = pos 0; top = pos 300; right = pos 150; bottom = pos 400 }
unfolding cross max_ℤ min_ℤ
cross-window = refl
