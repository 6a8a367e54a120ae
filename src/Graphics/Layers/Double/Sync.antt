-- ===== src/Graphics/Layers/Double/Sync.antt =====
-- kernel/graphics/layer_manager.cpp: the screen and the back buffer show the same after every operation.
use mathlib.Core.Path.{subst}
use os_jisaku.Graphics.Color.{Bytes, PixelFormat}
use os_jisaku.Graphics.Frame.{FrameBuffer, copy_from}
use os_jisaku.Graphics.Frame.Fast.{IsBytes}
use os_jisaku.Graphics.Frame.Keeps.{clone-IsBytes}
use os_jisaku.Graphics.Frame.Pixels.{offset_of}
use os_jisaku.Graphics.Frame.Valid.{IsValid, byte_of}
use os_jisaku.Graphics.Frame.Whole.{clone-byte, forward, forward-byte}
use os_jisaku.Graphics.Geometry.{Rect, includes}
use os_jisaku.Graphics.Layers.{Layer, merge_rects}
use os_jisaku.Graphics.Layers.Double.{
  Buffers, damage_double, damage_merged, damaged_part, draw_double, set_buffer_double,
}
use os_jisaku.Graphics.Layers.Double.Parts.{
  copied_pixel, draw_damage_to-Redrawn, draw_damage_to-outside, draw_to-Redrawn,
}
use os_jisaku.Graphics.Layers.Hiding.{first_drawn_drawable}
use os_jisaku.Graphics.Layers.Paint.{AllDrawable, copy_from_shape, point}
use os_jisaku.Prelude.{Bool-cases, List, [], ap, inl, inr, none, refl, sym, ℕ, ◌<◌, ◌∙◌, ◌∷◌, ◌≡◌}

-- The front and the back buffer are alike, of the format `f`, and hold the same pixels.
pub record InSync (f : PixelFormat) (b : Buffers) : Type 0 where
  pub format : b.front.pixel_format ≡ f
  pub valid : IsValid b.front
  pub bytes : IsBytes b.back.bytes
  pub alike : b.back ≡ record b.front { bytes = b.back.bytes }
  pub pixels :
      (x y k : ℕ)
      → x < b.front.horizontal_resolution
      → y < b.front.vertical_resolution
      → k < 4
      → byte_of b.back x y k ≡ byte_of b.front x y k

-- Two buffers that differ in their bytes only, the same in every pixel.
abbrev SamePixels : FrameBuffer → Bytes → Bytes → Type 0
SamePixels fb b c =
    (x y k : ℕ)
    → x < fb.horizontal_resolution
    → y < fb.vertical_resolution
    → k < 4
    → b (offset_of 4 fb.pixels_per_scan_line x y k) ≡ c (offset_of 4 fb.pixels_per_scan_line x y k)

abbrev pair : FrameBuffer → Bytes → Bytes → Buffers
pair fb front_bytes back_bytes = record {
  front = record fb { bytes = front_bytes };
  back = record fb { bytes = back_bytes };
}

pair-InSync :
    (fb : FrameBuffer) (c b : Bytes)
    → IsValid fb
    → IsBytes b
    → SamePixels fb b c
    → InSync fb.pixel_format (pair fb c b)
pair-InSync fb c b v bytes same = record {
  format = refl;
  valid = record { pitch = v.pitch; small = v.small };
  bytes = bytes;
  alike = refl;
  pixels = same;
}

damage_pair-InSync :
    (fb : FrameBuffer) (b : Bytes)
    → IsValid fb
    → IsBytes b
    → SamePixels fb b fb.bytes
    → (id : ℕ) (rect : Rect) (stack : List Layer) → AllDrawable fb.pixel_format stack
    → InSync fb.pixel_format (damage_merged (pair fb fb.bytes b) id rect stack)
unfolding damage_merged
damage_pair-InSync fb b v bytes same id rect stack all =
    let held : FrameBuffer = record fb { bytes = b } in
    let (b', bytes', e) =
      draw_damage_to-Redrawn held id rect fb.pixel_format stack
        (first_drawn_drawable fb.pixel_format rect stack all) bytes in
    let (c, shape) = copy_from_shape fb (record fb { bytes = b' }) (damaged_part rect) none in
    let made = λ (t : FrameBuffer).
      let r : Buffers = record { front = (copy_from fb t (damaged_part rect) none).1; back = t } in
      r in
    let pixels : SamePixels fb b' c = λ x y k hx hy hk.
      let copied =
        sym (ap (λ f. f.bytes (offset_of 4 fb.pixels_per_scan_line x y k)) shape)
        ∙ copied_pixel fb v x y k hx hy hk b' bytes' rect in
      elim (Bool-cases (includes rect (point x y))) [
        | inl within ↦ sym (rw within at copied)
        | inr out ↦
            sym (ap (λ f. f.bytes (offset_of 4 fb.pixels_per_scan_line x y k)) e)
            ∙ draw_damage_to-outside held (record { pitch = v.pitch; small = v.small }) x y k hx hy
                hk id rect stack all out
            ∙ same x y k hx hy hk
            ∙ sym (rw out at copied)
      ] in
    subst (InSync fb.pixel_format) (sym (ap made e)) (
      subst (λ f. InSync fb.pixel_format (record { front = f; back = record fb { bytes = b' } }))
        (sym shape) (pair-InSync fb c b' v bytes' pixels))

draw_pair-InSync :
    (fb : FrameBuffer) (b : Bytes)
    → IsValid fb
    → IsBytes b
    → (stack : List Layer) → AllDrawable fb.pixel_format stack
    → InSync fb.pixel_format (draw_double (pair fb fb.bytes b) stack)
unfolding draw_double
draw_pair-InSync fb b v bytes stack all =
    let held : FrameBuffer = record fb { bytes = b } in
    let (b', bytes', e) = draw_to-Redrawn held fb.pixel_format stack all bytes in
    let made =
      λ (t : FrameBuffer). let r : Buffers = record { front = forward fb t; back = t } in r in
    let pixels : SamePixels fb b' (forward fb (record fb { bytes = b' })).bytes =
      λ x y k hx hy hk. sym (forward-byte fb v x y k hx hy hk (record fb { bytes = b' }) refl) in
    subst (InSync fb.pixel_format) (sym (ap made e))
      (pair-InSync fb (forward fb (record fb { bytes = b' })).bytes b' v bytes' pixels)

-- Buffers in step are a pair that differs in its bytes only.
as_pair : {f : PixelFormat} {b : Buffers} → InSync f b → b ≡ pair b.front b.front.bytes b.back.bytes
as_pair {b} h = λ i. record { front = b.front; back = h.alike i }

pixels_of :
    {f : PixelFormat} {b : Buffers} → InSync f b → SamePixels b.front b.back.bytes b.front.bytes
pixels_of {b} h x y k hx hy hk =
    ap (λ (t : FrameBuffer). b.back.bytes (offset_of 4 t.pixels_per_scan_line x y k)) (sym h.alike)
    ∙ h.pixels x y k hx hy hk

-- What is asked of a manager, with the stack at that time.
pub data Request : Type 0 where
  redraw : List Layer → Request
  damaged_layer : ℕ → List Rect → List Layer → Request

abbrev pub answer : Request → Buffers → Buffers
answer (redraw stack) b = draw_double b stack
answer (damaged_layer id rects stack) b = damage_double b id rects stack

abbrev pub stack_of : Request → List Layer
stack_of (redraw stack) = stack
stack_of (damaged_layer id rects stack) = stack

abbrev pub answer_all : List Request → Buffers → Buffers
answer_all [] b = b
answer_all (r ∷ rs) b = answer_all rs (answer r b)

abbrev pub AllRequestsDrawable : PixelFormat → List Request → Type 0
AllRequestsDrawable f [] = Unit {0}
AllRequestsDrawable f (r ∷ rs) = AllDrawable f (stack_of r) × AllRequestsDrawable f rs

answer-InSync :
    (f : PixelFormat) (r : Request) (b : Buffers)
    → AllDrawable f (stack_of r)
    → InSync f b
    → InSync f (answer r b)
unfolding damage_double
answer-InSync f (damaged_layer id [] stack) b all h = h
answer-InSync f (damaged_layer id (rect ∷ rects) stack) b all h =
    subst (λ t. InSync t (damage_merged b id (merge_rects rect rects) stack)) h.format
      (subst (λ t. InSync b.front.pixel_format (damage_merged t id (merge_rects rect rects) stack))
        (sym (as_pair h))
        (damage_pair-InSync b.front b.back.bytes h.valid h.bytes (pixels_of h) id
          (merge_rects rect rects) stack (subst (λ t. AllDrawable t stack) (sym h.format) all)))
answer-InSync f (redraw stack) b all h =
    subst (λ t. InSync t (draw_double b stack)) h.format
      (subst (λ t. InSync b.front.pixel_format (draw_double t stack)) (sym (as_pair h))
        (draw_pair-InSync b.front b.back.bytes h.valid h.bytes stack
          (subst (λ t. AllDrawable t stack) (sym h.format) all)))

answer_all-InSync :
    (f : PixelFormat) (rs : List Request) (b : Buffers)
    → AllRequestsDrawable f rs
    → InSync f b
    → InSync f (answer_all rs b)
answer_all-InSync f [] b all h = h
answer_all-InSync f (r ∷ rs) b (all, rest) h =
    answer_all-InSync f rs (answer r b) rest (answer-InSync f r b all h)

set_buffer_double-InSync :
    (fb : FrameBuffer)
    → IsValid fb
    → IsBytes fb.bytes
    → InSync fb.pixel_format (set_buffer_double fb)
unfolding set_buffer_double
set_buffer_double-InSync fb v bytes = record {
  format = refl;
  valid = v;
  bytes = clone-IsBytes fb bytes;
  alike = refl;
  pixels = λ x y k hx hy hk. clone-byte fb v x y k hx hy hk;
}

-- A manager that is given a frame buffer, and then any sequence of redraws and damages with any
-- stacks of layers of its format, has the same pixels in the frame buffer as in its back buffer
-- after each of them.
pub answer_all-same_pixels :
    (fb : FrameBuffer)
    → IsValid fb
    → IsBytes fb.bytes
    → (rs : List Request) → AllRequestsDrawable fb.pixel_format rs
    → InSync fb.pixel_format (answer_all rs (set_buffer_double fb))
answer_all-same_pixels fb v bytes rs all =
    answer_all-InSync fb.pixel_format rs (set_buffer_double fb) all
      (set_buffer_double-InSync fb v bytes)
