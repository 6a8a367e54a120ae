-- ===== src/Prelude/Bits/Fields.antt =====
-- Bit fields: a word is a list of widths, from the lowest bit up, and a field is a position of that list.
use Prim.Native.Nat.{ℕ, zero, suc, ◌+◌, ◌*◌, ◌/◌, ◌%◌, ◌^◌, ◌<◌}
use mathlib.Core.Path.{◌≡◌, refl, ap, sym, ◌∙◌}
use mathlib.Core.Logic.{◌≢◌}
use mathlib.Core.List.{List, [], ◌∷◌}
use native.Mathlib.Nat.{
  one-le-pow, mod-lt, add-mul-div_left, add-mul-mod_self_left, div-eq_of_lt, mod-mod,
  div-div-eq-div-mul, one-mul, pow-suc, mul_right_comm, div-one, zero-add,
}
use native.Mathlib.Omega.{arith}
use os_jisaku.Prelude.Lists.{length}

unfoldable pub get_field : List ℕ → ℕ → ℕ → ℕ
get_field [] i x = 0
get_field (w ∷ ws) zero x = x % 2 ^ w
get_field (w ∷ ws) (suc i) x = get_field ws i (x / 2 ^ w)

unfoldable pub set_field : List ℕ → ℕ → ℕ → ℕ → ℕ
set_field [] i v x = x
set_field (w ∷ ws) zero v x = v % 2 ^ w + 2 ^ w * (x / 2 ^ w)
set_field (w ∷ ws) (suc i) v x = x % 2 ^ w + 2 ^ w * set_field ws i v (x / 2 ^ w)

-- The lowest bit of a field, and its width.
abbrev pub field_offset : List ℕ → ℕ → ℕ
field_offset [] i = 0
field_offset (w ∷ ws) zero = 0
field_offset (w ∷ ws) (suc i) = w + field_offset ws i

abbrev pub field_width : List ℕ → ℕ → ℕ
field_width [] i = 0
field_width (w ∷ ws) zero = w
field_width (w ∷ ws) (suc i) = field_width ws i

-- The two parts of a word at a power.
low_part : (w x y : ℕ) → (x % 2 ^ w + 2 ^ w * y) % 2 ^ w ≡ x % 2 ^ w
low_part w x y = add-mul-mod_self_left (x % 2 ^ w) (2 ^ w) y ∙ mod-mod x (2 ^ w)

high_part : (w x y : ℕ) → (x % 2 ^ w + 2 ^ w * y) / 2 ^ w ≡ y
high_part w x y =
    let lt : 0 < 2 ^ w = one-le-pow w 2 (omega arith) in
    rw (add-mul-div_left (x % 2 ^ w) y lt, div-eq_of_lt (mod-lt x lt)) (zero-add y)

-- A field that is set is read back, as far as it fits.
pub get_field-set_field :
    (ws : List ℕ) (i v x : ℕ)
    → i < length ws
    → get_field ws i (set_field ws i v x) ≡ v % 2 ^ field_width ws i
unfolding get_field set_field
get_field-set_field [] i v x h = absurd (omega arith)
get_field-set_field (w ∷ ws) zero v x h = low_part w v (x / 2 ^ w)
get_field-set_field (w ∷ ws) (suc i) v x h =
    rw (high_part w x (set_field ws i v (x / 2 ^ w)))
      (get_field-set_field ws i v (x / 2 ^ w) (omega arith))

-- The other fields stay.
pub get_field-set_field_ne :
    (ws : List ℕ) (i j v x : ℕ) → i ≢ j → get_field ws j (set_field ws i v x) ≡ get_field ws j x
unfolding get_field set_field
get_field-set_field_ne [] i j v x ne = refl
get_field-set_field_ne (w ∷ ws) zero zero v x ne = absurd (ne refl)
get_field-set_field_ne (w ∷ ws) zero (suc j) v x ne = rw (high_part w v (x / 2 ^ w))
get_field-set_field_ne (w ∷ ws) (suc i) zero v x ne = low_part w x (set_field ws i v (x / 2 ^ w))
get_field-set_field_ne (w ∷ ws) (suc i) (suc j) v x ne =
    rw (high_part w x (set_field ws i v (x / 2 ^ w)))
      (get_field-set_field_ne ws i j v (x / 2 ^ w) (λ e. ne (ap suc e)))

pub pow_add : (a b : ℕ) → 2 ^ (a + b) ≡ 2 ^ a * 2 ^ b
pow_add zero b = rw (zero-add b) (sym (one-mul (2 ^ b)))
pow_add (suc a) b =
    let e : suc a + b ≡ suc (a + b) = omega arith in
    rw (e, pow-suc 2 (a + b), pow-suc 2 a, pow_add a b) (mul_right_comm (2 ^ a) (2 ^ b) 2)

-- A field is the bits at its place, so layouts that agree on the place agree on the field.
pub get_field-offset :
    (ws : List ℕ) (i x : ℕ)
    → i < length ws
    → get_field ws i x ≡ x / 2 ^ field_offset ws i % 2 ^ field_width ws i
unfolding get_field
get_field-offset [] i x h = absurd (omega arith)
get_field-offset (w ∷ ws) zero x h = rw (div-one x)
get_field-offset (w ∷ ws) (suc i) x h = rw (
  get_field-offset ws i (x / 2 ^ w) (omega arith),
  div-div-eq-div-mul x (2 ^ w) (2 ^ field_offset ws i),
  pow_add w (field_offset ws i),
)
