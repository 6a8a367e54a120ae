-- ===== src/Errors/Names.antt =====
-- The names that `Error::name` gives to the codes.
use os_jisaku.Errors.{Code, last_of_code, name, unknown_pixel_format}
use os_jisaku.Prelude.{arith, inl, inr, refl, ◌↔◌, ◌≡◌, ◌⊎◌}
use text.Mathlib.TextEquality.{eq_iff}

-- `name` is `Unknown` for exactly the last two codes, one of which a caller can meet: the table has
-- no entry for `unknown_pixel_format`.
pub name-unknown :
    (c : Code) → (name c ≡ "Unknown") ↔ ((c ≡ unknown_pixel_format) ⊎ (c ≡ last_of_code))
unfolding name
name-unknown unknown_pixel_format = (λ e. inl refl, λ s. refl)
name-unknown last_of_code = (λ e. inr refl, λ s. refl)
name-unknown c = (λ e. cc ((eq_iff (name c) "Unknown").1 e), λ s. ground arith)
