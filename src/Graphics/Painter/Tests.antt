-- ===== src/Graphics/Painter/Tests.antt =====
-- Two rectangles, one beside the other.
use os_jisaku.Graphics.Geometry.{Rect, includes_rect}
use os_jisaku.Graphics.Painter.{end, start_paint}
use os_jisaku.Graphics.Painter.Damage.{damaged_by, end-damaged_by, includes_all}
use os_jisaku.Prelude.{[], none, some, ℕ, ◌∷◌, ◌≡◌}
use os_jisaku.Prelude.Int.{pos}

abbrev at : ℕ → ℕ → ℕ → ℕ → Rect
at l t r b = record { left = pos l; top = pos t; right = pos r; bottom = pos b }

end-damaged_by_example :
    (end (damaged_by [] start_paint) ≡ none)
    × (d : Rect) × (end (damaged_by (at 0 0 8 16 ∷ at 8 0 16 16 ∷ []) start_paint) ≡ some d)
    × ((t : Rect) → includes_rect t d ≡ includes_all t (at 0 0 8 16 ∷ at 8 0 16 16 ∷ []))
end-damaged_by_example = end-damaged_by (at 0 0 8 16) (at 8 0 16 16 ∷ [])
