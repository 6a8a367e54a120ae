-- ===== src/Graphics/Painter/Damage.antt =====
-- The rectangle that a painter reports is the smallest one around everything that was painted.
use os_jisaku.Graphics.Geometry.{
  Rect, bottom_right, corners, includes_rect, max_vec, merge, min_vec, top_left,
}
use os_jisaku.Graphics.Geometry.Laws.{includes_rect-merge}
use os_jisaku.Graphics.Painter.{Painter, end, raw_damage, start_paint}
use os_jisaku.Prelude.{
  Bool, List, [], and_true, ap, false, none, refl, some, sym, true, ◌&&◌, ◌∙◌, ◌∷◌, ◌≡◌,
}

abbrev pub damaged_by : List Rect → Painter → Painter
damaged_by [] p = p
damaged_by (r ∷ rs) p = damaged_by rs (raw_damage p r)

abbrev pub includes_all : Rect → List Rect → Bool
includes_all t [] = true
includes_all t (r ∷ rs) = includes_rect t r && includes_all t rs

and_assoc : (a b c : Bool) → (a && b && c) ≡ (a && (b && c))
and_assoc true b c = refl
and_assoc false b c = refl

-- A painter that has painted inside `r`.
abbrev painting : Rect → Painter
painting r = record {
  damaged = true;
  damage_top_left = top_left r;
  damage_bottom_right = bottom_right r;
}

raw_damage-first : (r : Rect) → raw_damage start_paint r ≡ painting r
unfolding raw_damage
raw_damage-first r = refl

raw_damage-merge : (r s : Rect) → raw_damage (painting r) s ≡ painting (merge r s)
unfolding raw_damage merge top_left bottom_right min_vec max_vec
raw_damage-merge r s = refl

end-painting : (r : Rect) → end (painting r) ≡ some r
unfolding end corners top_left bottom_right
end-painting r = refl

end-from :
    (r : Rect) (rs : List Rect)
    → (d : Rect) × (end (damaged_by rs (painting r)) ≡ some d)
      × ((t : Rect) → includes_rect t d ≡ (includes_rect t r && includes_all t rs))
end-from r [] = (r, end-painting r, λ t. sym (and_true (includes_rect t r)))
end-from r (s ∷ rs) =
    let (d, e, h) = end-from (merge r s) rs in
    (
      d,
      ap (λ p. end (damaged_by rs p)) (raw_damage-merge r s) ∙ e,
      λ t.
          h t
          ∙ ap (λ b. b && includes_all t rs) (includes_rect-merge r s t)
          ∙ and_assoc (includes_rect t r) (includes_rect t s) (includes_all t rs),
    )

-- A painter that has painted reports one rectangle, and a rectangle includes it exactly when it
-- includes everything that was painted; a painter that has painted nothing reports none.
pub end-damaged_by :
    (r : Rect) (rs : List Rect)
    → (end (damaged_by [] start_paint) ≡ none)
      × (d : Rect) × (end (damaged_by (r ∷ rs) start_paint) ≡ some d)
      × ((t : Rect) → includes_rect t d ≡ includes_all t (r ∷ rs))
unfolding end
end-damaged_by r rs =
    let (d, e, h) = end-from r rs in
    (refl, d, ap (λ p. end (damaged_by rs p)) (raw_damage-first r) ∙ e, h)
