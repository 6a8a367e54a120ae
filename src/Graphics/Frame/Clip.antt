-- ===== src/Graphics/Frame/Clip.antt =====
-- `adjust_coords` clips a copy to both buffers, and moves nothing inside that part.
use os_jisaku.Graphics.Frame.{Coords, adjust_coords, decrease_d, increase_d}
use os_jisaku.Graphics.Geometry.{Rect, Vector2D, add, corners, includes}
use os_jisaku.Graphics.Geometry.Laws.{Covers, Inside, includes-Inside}
use os_jisaku.Prelude.{&&-iff, Bool-ext, arith, ℕ, ◌&&◌, ◌+◌, ◌↔◌, ◌≡◌, ◌⊎◌}
use os_jisaku.Prelude.Int.{
  int_laws, max_ℤ, min_ℤ, neg_part, pos, pos_part, ℤ, ◌+ℤ◌, ◌-ℤ◌, ◌<ℤ◌, ◌≤ℤ◌,
}

abbrev SumParts : ℤ → ℤ → ℤ → Type 0
SumParts r v d = pos_part r + neg_part v + neg_part d ≡ neg_part r + pos_part v + pos_part d

abbrev SameParts : ℤ → ℤ → Type 0
SameParts r v = (pos_part r ≡ pos_part v) × (neg_part r ≡ neg_part v)

decrease_d_parts :
    (v d : ℤ)
    → (d <ℤ pos 0) × SumParts (decrease_d v d) v d ⊎ (pos 0 ≤ℤ d) × SameParts (decrease_d v d) v
unfolding decrease_d ◌+ℤ◌
decrease_d_parts v d = ground arith

increase_d_parts :
    (v d : ℤ)
    → (d <ℤ pos 0) × SumParts v (increase_d v d) d ⊎ (pos 0 ≤ℤ d) × SameParts (increase_d v d) v
unfolding increase_d ◌-ℤ◌
increase_d_parts v d = ground arith

ruleset clip_laws = (int_laws, decrease_d_parts, increase_d_parts)

-- One axis of `adjust_coords`: positions `t` and `s`, length `z`, in buffers of `ts` and `ss`.
module _ (ts ss : ℕ) (t s z : ℤ) where
  abbrev t1 : ℤ
  t1 = increase_d t s

  abbrev axis_to : ℤ
  axis_to = max_ℤ t1 (pos 0)

  abbrev axis_src : ℤ
  axis_src = increase_d (max_ℤ s (pos 0)) t1

  abbrev axis_size : ℤ
  axis_size =
      min_ℤ (decrease_d (decrease_d z s) t1) (min_ℤ (pos ts -ℤ axis_to) (pos ss -ℤ axis_src))

  -- Every point keeps its target.
  axis_target : (i : ℤ) → i -ℤ axis_src +ℤ axis_to ≡ i -ℤ s +ℤ t
  axis_target i = omega clip_laws

  -- What is copied are the points of the part that lie in the source and whose targets lie in the
  -- target.
  axis_points :
      (i : ℤ)
      → ((axis_src ≤ℤ i) × (i <ℤ axis_src +ℤ axis_size)) ↔ (
          (s ≤ℤ i)
          × (i <ℤ s +ℤ z)
          × (pos 0 ≤ℤ i)
          × (i <ℤ pos ss)
          × (pos 0 ≤ℤ i -ℤ s +ℤ t)
          × (i -ℤ s +ℤ t <ℤ pos ts))
  axis_points i = (λ h. omega clip_laws, λ h. omega clip_laws)

  -- A part that is not empty lies in both buffers.
  axis_inside :
      pos 0 <ℤ axis_size
      → (pos 0 ≤ℤ axis_to)
        × (axis_to +ℤ axis_size ≤ℤ pos ts)
        × (pos 0 ≤ℤ axis_src)
        × (axis_src +ℤ axis_size ≤ℤ pos ss)
  axis_inside h = omega clip_laws

-- The size of a buffer as a vector, and the rectangle of its points.
abbrev pub extent : ℕ → ℕ → Vector2D
extent w h = record { x = pos w; y = pos h }

abbrev pub bounds : ℕ → ℕ → Rect
bounds w h = record { left = pos 0; top = pos 0; right = pos w; bottom = pos h }

-- Where the point `p` of the source goes.
abbrev pub target_of : Coords → Vector2D → Vector2D
target_of c p = record {
  x = p.x -ℤ c.src_pos.x +ℤ c.to_pos.x;
  y = p.y -ℤ c.src_pos.y +ℤ c.to_pos.y;
}

-- The part of the source that `c` asks for.
abbrev pub part : Coords → Rect
part c = record {
  left = c.src_pos.x;
  top = c.src_pos.y;
  right = c.src_pos.x +ℤ c.size.x;
  bottom = c.src_pos.y +ℤ c.size.y;
}

module _ (tw th sw sh : ℕ) (c : Coords) where
  abbrev pub adjusted : Coords
  adjusted = adjust_coords (extent tw th) (extent sw sh) c

  Inside-adjusted :
      (p : Vector2D)
      → Inside (part adjusted) p
        ↔ (Inside (part c) p × Inside (bounds sw sh) p × Inside (bounds tw th) (target_of c p))
  unfolding adjust_coords
  Inside-adjusted p =
      let ax = axis_points tw sw c.to_pos.x c.src_pos.x c.size.x p.x in
      let ay = axis_points th sh c.to_pos.y c.src_pos.y c.size.y p.y in
      (
        λ (l, t, r, b).
            let hx = ax.0 (l, r) in
            let hy = ay.0 (t, b) in
            ((hx.0, hy.0, hx.1, hy.1), (hx.2, hy.2, hx.3, hy.3), (hx.4, hy.4, hx.5, hy.5)),
        λ (i, j, k).
            let hx = ax.1 (i.0, i.2, j.0, j.2, k.0, k.2) in
            let hy = ay.1 (i.1, i.3, j.1, j.3, k.1, k.3) in (hx.0, hy.0, hx.1, hy.1),
      )

  same_target : (p : Vector2D) → target_of adjusted p ≡ target_of c p
  unfolding adjust_coords
  same_target p = λ i. record {
    x = axis_target tw sw c.to_pos.x c.src_pos.x c.size.x p.x i;
    y = axis_target th sh c.to_pos.y c.src_pos.y c.size.y p.y i;
  }

  -- A part that is not empty lies in both buffers.
  pub adjusted_inside :
      pos 0 <ℤ adjusted.size.x
      → pos 0 <ℤ adjusted.size.y
      → Covers (bounds tw th) (corners adjusted.to_pos (add adjusted.to_pos adjusted.size))
        × Covers (bounds sw sh) (corners adjusted.src_pos (add adjusted.src_pos adjusted.size))
  unfolding adjust_coords corners add
  adjusted_inside hx hy =
      let ax = axis_inside tw sw c.to_pos.x c.src_pos.x c.size.x hx in
      let ay = axis_inside th sh c.to_pos.y c.src_pos.y c.size.y hy in
      ((ax.0, ay.0, ax.1, ay.1), (ax.2, ay.2, ax.3, ay.3))

  -- `adjust_coords` asks for exactly the points of the part that lie in the source and whose targets
  -- lie in the target, and every point keeps its target.
  pub adjust_coords-clips :
      (p : Vector2D)
      → (includes (part adjusted) p ≡ (
          includes (part c) p
          && (includes (bounds sw sh) p && includes (bounds tw th) (target_of c p))))
        × (target_of adjusted p ≡ target_of c p)
  adjust_coords-clips p = (
    Bool-ext _ _ (
      λ h.
          let (i, j, k) = (Inside-adjusted p).0 ((includes-Inside (part adjusted) p).0 h) in
          (&&-iff _ _).1 (
            (includes-Inside (part c) p).1 i,
            (&&-iff _ _).1
                ((includes-Inside (bounds sw sh) p).1 j, (includes-Inside (bounds tw th) _).1 k),
          ),
      λ h.
          let (i, rest) = (&&-iff (includes (part c) p) _).0 h in
          let (j, k) = (&&-iff (includes (bounds sw sh) p) _).0 rest in
          (includes-Inside (part adjusted) p).1 (
            (Inside-adjusted p).1 (
              (includes-Inside (part c) p).0 i,
              (includes-Inside (bounds sw sh) p).0 j,
              (includes-Inside (bounds tw th) _).0 k,
            )),
    ),
    same_target p,
  )
