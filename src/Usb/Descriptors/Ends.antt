-- ===== src/Usb/Descriptors/Ends.antt =====
-- kernel/usb/device.cpp: the search for a descriptor.
use os_jisaku.Prelude.{
  &&-iff, ==→≡, Bool, Bool-cases, ap, arith, false, inl, inr, leb, ltb, ltb→le, ltb→lt, none, refl,
  some, suc, true, zero, ℕ, ◌&&◌, ◌+◌, ◌<◌, ◌||◌, ◌∙◌, ◌≡◌, ◌≢◌, ◌≤◌, ◌⊎◌,
}
use os_jisaku.Usb.Descriptors.{found, is_descriptor, next_descriptor, next_of, nothing, out_of_fuel}

-- The first `n` descriptors from `p` on, as far as they are in the buffer, have a length.
unfoldable pub has_lengths : ℕ → (ℕ → ℕ) → ℕ → ℕ → Bool
has_lengths zero buf len p = true
has_lengths (suc n) buf len p =
    ltb 0 (buf p) && (leb len (p + buf p) || has_lengths n buf len (p + buf p))

-- What the search is to find: a descriptor of the type, behind the start and inside the buffer.
abbrev pub IsMatch : ℕ → (ℕ → ℕ) → ℕ → ℕ → ℕ → Type 0
IsMatch type buf len p q = (p < q) × (q < len) × (buf (q + 1) ≡ type)

next_descriptor-cases :
    (buf : ℕ → ℕ) (len p : ℕ)
    → ((next_descriptor buf len p ≡ none) × (len ≤ p + buf p))
      ⊎ ((next_descriptor buf len p ≡ some (p + buf p)) × (p + buf p < len))
unfolding next_descriptor
next_descriptor-cases buf len p = elim (Bool-cases (ltb (p + buf p) len)) [
  | inl t ↦ inr (rw t, ltb→lt _ _ t)
  | inr f ↦ inl (rw f, ltb→le _ _ f)
]

has_lengths-next :
    (n : ℕ) (buf : ℕ → ℕ) (len p : ℕ)
    → has_lengths (suc n) buf len p ≡ true
    → (0 < buf p) × (p + buf p < len → has_lengths n buf len (p + buf p) ≡ true)
unfolding has_lengths
has_lengths-next n buf len p h =
    let (l, r) = (&&-iff _ _).0 h in
    (ltb→lt _ _ l, λ lt. let f : leb len (p + buf p) ≡ false = ground arith in rw f at r)

-- Where the descriptors of a buffer have lengths other than 0, the search ends within as many rounds as
-- there are bytes from its start: with nothing, or with a descriptor of the type, behind the start and
-- inside the buffer.
pub next_of-ends :
    (fuel type : ℕ) (buf : ℕ → ℕ) (len p : ℕ)
    → has_lengths fuel buf len p ≡ true
    → p < len
    → len ≤ p + fuel
    → (next_of fuel type buf len p ≡ nothing)
      ⊎ (q : ℕ) × IsMatch type buf len p q × (next_of fuel type buf len p ≡ found q)
unfolding next_of
next_of-ends zero type buf len p h lt le = absurd (omega arith)
next_of-ends (suc fuel) type buf len p h lt le =
    let (long, rest) = has_lengths-next fuel buf len p h in
    elim (next_descriptor-cases buf len p) [
      | inl (e, past) ↦ inl (rw (e, next_of))
      | inr (e, inside) ↦ elim (Bool-cases (is_descriptor type buf (p + buf p))) [
        | inl t ↦ inr (p + buf p, (omega arith, inside, ==→≡ _ _ t), rw (e, next_of, t))
        | inr f ↦
            elim (next_of-ends fuel type buf len (p + buf p) (rest inside) inside (omega arith)) [
              | inl n ↦ inl (rw (e, next_of, f) n)
              | inr (q, m, r) ↦ inr (q, (omega (arith, m.0), m.1, m.2), rw (e, next_of, f) r)
            ]
      ]
    ]

-- A descriptor of length 0 that is not of the type holds the search for ever.
pub next_of_zero_length :
    (fuel type : ℕ) (buf : ℕ → ℕ) (len p : ℕ)
    → p < len
    → buf p ≡ 0
    → buf (p + 1) ≢ type
    → next_of fuel type buf len p ≡ out_of_fuel
unfolding next_of
next_of_zero_length zero type buf len p lt z ne = refl
next_of_zero_length (suc fuel) type buf len p lt z ne =
    let e : next_descriptor buf len p ≡ some p = stays buf len p lt z in
    let f : is_descriptor type buf p ≡ false = ground arith in
    rw (e, next_of, f) (next_of_zero_length fuel type buf len p lt z ne)
  where
    stays : (buf : ℕ → ℕ) (len p : ℕ) → p < len → buf p ≡ 0 → next_descriptor buf len p ≡ some p
    stays buf len p lt z = elim (next_descriptor-cases buf len p) [
      | inl (e, past) ↦ absurd (omega arith)
      | inr (e, inside) ↦ e ∙ ap some (omega arith)
    ]
