-- ===== src/Graphics/Draw/Pictures.antt =====
-- What a drawing function does to a picture: it gives one colour to a set of points.
use native.Mathlib.Decide.{dec_lt}
use os_jisaku.Graphics.Color.{PixelColor}
use os_jisaku.Graphics.Draw.{Write, for_up}
use os_jisaku.Graphics.Layers.Manager.{draw}
use os_jisaku.Prelude.{
  &&-iff, Bool, arith, false, if◌then◌else◌, inl, inr, leb→le, le→leb, or_iff, refl, suc, true,
  zero, ℕ, ◌&&◌, ◌+◌, ◌<◌, ◌||◌, ◌↔◌, ◌∙◌, ◌≡◌, ◌≤◌,
}
use os_jisaku.Prelude.Int.{leb_ℤ, ℤ, ≤ℤ_antisymm}

-- A picture, which the `write` below changes at one point.
abbrev pub Picture : Type 0
Picture = ℤ → ℤ → PixelColor

unfoldable pub same_ℤ : ℤ → ℤ → Bool
same_ℤ a b = leb_ℤ a b && leb_ℤ b a

pub same_ℤ-iff : (a b : ℤ) → (same_ℤ a b ≡ true) ↔ (a ≡ b)
unfolding same_ℤ
same_ℤ-iff a b = (
  λ h.
      let (p, q) = (&&-iff (leb_ℤ a b) (leb_ℤ b a)).0 h in
      ≤ℤ_antisymm a b (leb→le _ _ p) (leb→le _ _ q),
  λ e.
      rw e
        ((&&-iff (leb_ℤ b b) (leb_ℤ b b)).1 (le→leb _ _ (omega arith), le→leb _ _ (omega arith))),
)

-- A writer to a picture.
unfoldable pub write_picture : Write Picture
write_picture x y c picture px py = if same_ℤ px x && same_ℤ py y then c else picture px py

abbrev pub Points : Type 0
Points = ℤ → ℤ → Bool

-- `draw` gives the colour to exactly the points of `ps`.
abbrev pub Paints : (Picture → Picture) → Points → PixelColor → Type 0
Paints draw ps c =
    (picture : Picture) (x y : ℤ) → draw picture x y ≡ (if ps x y then c else picture x y)

-- One point.
abbrev pub at_point : ℤ → ℤ → Points
at_point x y px py = same_ℤ px x && same_ℤ py y

pub write_picture-Paints :
    (x y : ℤ) (c : PixelColor) → Paints (write_picture x y c) (at_point x y) c
unfolding write_picture
write_picture-Paints x y c picture px py = refl

pub then_paint :
    (f g : Picture → Picture) (ps qs : Points) (c : PixelColor)
    → Paints f ps c
    → Paints g qs c
    → Paints (λ picture. g (f picture)) (λ x y. qs x y || ps x y) c
then_paint f g ps qs c hf hg picture x y = hg (f picture) x y ∙ rw (hf picture x y) (ground arith)

pub paint_none : (c : PixelColor) → Paints (λ picture. picture) (λ x y. false) c
paint_none c picture x y = refl

-- The points of the rounds of a loop.
unfoldable pub any_from : ℕ → ℕ → (ℕ → Points) → Points
any_from zero first hit x y = false
any_from (suc rounds) first hit x y = any_from rounds (first + 1) hit x y || hit first x y

pub for_up-Paints :
    (rounds first : ℕ) (body : ℕ → Picture → Picture) (hit : ℕ → Points) (c : PixelColor)
    → ((i : ℕ) → Paints (body i) (hit i) c)
    → Paints (for_up rounds first body) (any_from rounds first hit) c
unfolding for_up any_from
for_up-Paints zero first body hit c h = paint_none c
for_up-Paints (suc rounds) first body hit c h =
    then_paint (body first) (for_up rounds (first + 1) body) (hit first)
      (any_from rounds (first + 1) hit) c (h first) (for_up-Paints rounds (first + 1) body hit c h)

-- A point is painted in a round exactly when some round paints it.
abbrev pub Hit : ℕ → ℕ → (ℕ → Points) → ℤ → ℤ → Type 0
Hit rounds first hit x y = (i : ℕ) × (first ≤ i) × (i < first + rounds) × (hit i x y ≡ true)

pub any_from-Hit :
    (rounds first : ℕ) (hit : ℕ → Points) (x y : ℤ)
    → (any_from rounds first hit x y ≡ true) ↔ Hit rounds first hit x y
unfolding any_from
any_from-Hit zero first hit x y = (λ h. cc, λ (i, l, u, h). absurd (omega arith))
any_from-Hit (suc rounds) first hit x y =
    let rest = any_from-Hit rounds (first + 1) hit x y in
    let both = or_iff (any_from rounds (first + 1) hit x y) (hit first x y) in
    (
      λ h. elim (both.0 h) [
        | inl p ↦ let (i, l, u, e) = rest.0 p in (i, omega arith, omega arith, e)
        | inr e ↦ (first, omega arith, omega arith, e)
      ],
      λ (i, l, u, e). elim (dec_lt first i) [
        | yes p ↦ both.1 (inl (rest.1 (i, omega arith, omega arith, e)))
        | no p ↦ let same : i ≡ first = omega arith in both.1 (inr (rw same at e))
      ],
    )
