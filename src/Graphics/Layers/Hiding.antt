-- ===== src/Graphics/Layers/Hiding.antt =====
-- kernel/graphics/layer_manager.cpp: the layers that `draw_damage_to` draws are layers of the stack.
use mathlib.Core.Path.{subst}
use os_jisaku.Graphics.Color.{PixelFormat}
use os_jisaku.Graphics.Geometry.{Rect}
use os_jisaku.Graphics.Layers.{Layer, first_drawn, front_or, hides, hiding_from}
use os_jisaku.Graphics.Layers.Paint.{AllDrawable}
use os_jisaku.Prelude.{Bool-cases, List, Option, [], inl, inr, none, refl, some, some_inj, ◌∷◌, ◌≡◌}
use os_jisaku.Usb.EventRing.{front}

hiding_from_drawable :
    (fmt : PixelFormat) (rect : Rect) (stack front : List Layer)
    → AllDrawable fmt stack
    → hiding_from rect stack ≡ some front
    → AllDrawable fmt front
unfolding hiding_from
hiding_from_drawable fmt rect [] front all e = cc
hiding_from_drawable fmt rect (l ∷ ls) front (d, all) e =
    step (hiding_from rect ls) refl (λ f in_rest. hiding_from_drawable fmt rect ls f all in_rest)
  where
    step :
        (r : Option (List Layer))
        → hiding_from rect ls ≡ r
        → ((f : List Layer) → hiding_from rect ls ≡ some f → AllDrawable fmt f)
        → AllDrawable fmt front
    step (some f) in_rest ih =
        subst (AllDrawable fmt) (some_inj (rw (in_rest, hiding_from) at e)) (ih f in_rest)
    step none absent ih = elim (Bool-cases (hides rect l)) [
      | inl hidden ↦
          subst (AllDrawable fmt) (some_inj (rw (absent, hidden, hiding_from) at e)) (d, all)
      | inr shown ↦ cc (rw (absent, shown, hiding_from) at e)
    ]

pub first_drawn_drawable :
    (fmt : PixelFormat) (rect : Rect) (stack : List Layer)
    → AllDrawable fmt stack
    → AllDrawable fmt (first_drawn rect stack)
unfolding first_drawn
first_drawn_drawable fmt rect stack all = step (hiding_from rect stack) refl
  where
    step :
        (r : Option (List Layer)) → hiding_from rect stack ≡ r → AllDrawable fmt (front_or stack r)
    step (some f) e = hiding_from_drawable fmt rect stack f all e
    step none e = all
