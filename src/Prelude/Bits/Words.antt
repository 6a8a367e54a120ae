-- ===== src/Prelude/Bits/Words.antt =====
-- `&` and `|` field by field.
use Prim.Native.Nat.{ℕ, zero, suc, ◌+◌, ◌*◌, ◌/◌, ◌%◌, ◌^◌, ◌-◌, ◌<◌, bit_and, bit_or, min, max}
use mathlib.Core.Path.{◌≡◌, refl, sym, ◌∙◌}
use mathlib.Core.List.{List, [], ◌∷◌}
use native.Mathlib.Nat.{
  div-one, div-div-eq-div-mul, pow-suc, mul_comm, one-le-pow, mod-one, mod-mod,
}
use native.Mathlib.Omega.{arith}
use mathlib.Core.Bool.{Bool, true, false, ◌&&◌}
use os_jisaku.Prelude.Lists.{length}
use os_jisaku.Prelude.Tests.{if◌then◌else◌}
use os_jisaku.Prelude.Bits.Fields.{field_offset, field_width, get_field, get_field-offset}
use os_jisaku.Prelude.Bits.Masks.{bit_and-ones, mod_twice}
use os_jisaku.Prelude.Bits.Step.{bit_and_step, bit_or_step, bit_and-zero, bit_or-zero}

module _ (op : ℕ → ℕ → ℕ) (low : ℕ → ℕ → ℕ)
    (low-lt : (x y : ℕ) → low (x % 2) (y % 2) % 2 ≡ low (x % 2) (y % 2))
    (step : (x y : ℕ) → op x y ≡ low (x % 2) (y % 2) + 2 * op (x / 2) (y / 2))
    (zeros : op 0 0 ≡ 0) where
  op-half : (x y : ℕ) → op x y / 2 ≡ op (x / 2) (y / 2)
  op-half x y = omega (arith, step x y, low-lt x y)

  op-low : (x y : ℕ) → op x y % 2 ≡ low (x % 2) (y % 2)
  op-low x y = omega (arith, step x y, low-lt x y)

  div_twice : (k x : ℕ) → x / 2 ^ suc k ≡ x / 2 / 2 ^ k
  div_twice k x = rw (pow-suc 2 k, mul_comm (2 ^ k) 2) (sym (div-div-eq-div-mul x 2 (2 ^ k)))

  pub op-div : (k x y : ℕ) → op x y / 2 ^ k ≡ op (x / 2 ^ k) (y / 2 ^ k)
  op-div zero x y = rw (div-one (op x y), div-one x, div-one y)
  op-div (suc k) x y =
      rw (div_twice k (op x y), div_twice k x, div_twice k y, op-half x y)
        (op-div k (x / 2) (y / 2))

  pub op-mod : (k x y : ℕ) → op x y % 2 ^ k ≡ op (x % 2 ^ k) (y % 2 ^ k)
  op-mod zero x y = rw (mod-one (op x y), mod-one x, mod-one y) (sym zeros)
  op-mod (suc k) x y =
      let p = one-le-pow k 2 (omega arith) in
      let a = x % 2 + 2 * (x / 2 % 2 ^ k) in
      let b = y % 2 + 2 * (y / 2 % 2 ^ k) in
      let ha : a / 2 ≡ x / 2 % 2 ^ k = omega arith in
      let hb : b / 2 ≡ y / 2 % 2 ^ k = omega arith in
      let la : a % 2 ≡ x % 2 = omega arith in
      let lb : b % 2 ≡ y % 2 = omega arith in
      let right : op a b ≡ low (x % 2) (y % 2) + 2 * op (x / 2 % 2 ^ k) (y / 2 % 2 ^ k) =
        step a b ∙ rw (ha, hb, la, lb) in
      rw
        (
          pow-suc 2 k,
          mod_twice (op x y) (2 ^ k) p,
          mod_twice x (2 ^ k) p,
          mod_twice y (2 ^ k) p,
          op-low x y,
          op-half x y,
          op-mod k (x / 2) (y / 2),
        )
        (sym right)

  pub get_field-op :
      (ws : List ℕ) (i x y : ℕ) → get_field ws i (op x y) ≡ op (get_field ws i x) (get_field ws i y)
  unfolding get_field
  get_field-op [] i x y = sym zeros
  get_field-op (w ∷ ws) zero x y = op-mod w x y
  get_field-op (w ∷ ws) (suc i) x y = rw (op-div w x y) (get_field-op ws i (x / 2 ^ w) (y / 2 ^ w))

pub get_field-bit_and :
    (ws : List ℕ) (i x y : ℕ)
    → get_field ws i (bit_and x y) ≡ bit_and (get_field ws i x) (get_field ws i y)
get_field-bit_and = get_field-op bit_and min (λ x y. ground arith) bit_and_step refl

pub get_field-bit_or :
    (ws : List ℕ) (i x y : ℕ)
    → get_field ws i (bit_or x y) ≡ bit_or (get_field ws i x) (get_field ws i y)
get_field-bit_or = get_field-op bit_or max (λ x y. ground arith) bit_or_step refl

-- A field under a mask that covers it, or leaves it out.
pub get_field-mask :
    (ws : List ℕ) (i x m : ℕ) (b : Bool)
    → i < length ws
    → get_field ws i m ≡ (if b then 2 ^ field_width ws i - 1 else 0)
    → get_field ws i (bit_and x m) ≡ (if b then get_field ws i x else 0)
get_field-mask ws i x m true h e =
    rw
      (
        get_field-bit_and ws i x m,
        e,
        bit_and-ones (field_width ws i) (get_field ws i x),
        get_field-offset ws i x h,
      )
      (mod-mod (x / 2 ^ field_offset ws i) (2 ^ field_width ws i))
get_field-mask ws i x m false h e =
    rw (get_field-bit_and ws i x m, e) (bit_and-zero (get_field ws i x))

-- A field that is set by `|`, or left.
pub bit_or-flag :
    (a c y : ℕ) (raised left : Bool)
    → a ≡ (if left then y else 0)
    → c ≡ (if raised then 1 else 0)
    → raised && left ≡ false
    → bit_or a c ≡ (if raised then 1 else if left then y else 0)
bit_or-flag a c y true true ha hc apart = absurd (ground arith)
bit_or-flag a c y true false ha hc apart = rw (ha, hc) refl
bit_or-flag a c y false left ha hc apart = rw (hc, bit_or-zero a) ha
