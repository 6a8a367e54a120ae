-- ===== src/Usb/Hid/Keys.antt =====
-- kernel/usb/classdriver/keyboard.cpp: which keys are reported.
use os_jisaku.Prelude.{
  ==→≡, ==→≢, Bool, Bool-cases, List, arith, false, if◌then◌else◌, inl, inr, ltb, ltb→le, ltb→lt,
  refl, suc, sym, true, zero, ℕ, ◌+◌, ◌<◌, ◌==◌, ◌||◌, ◌↔◌, ◌∙◌, ◌∷◌, ◌≡◌, ◌≢◌, ◌≤◌, ◌⊎◌,
}
use os_jisaku.Prelude.Int.{pos, ℤ}
use os_jisaku.Usb.Contexts.{is_in}
use os_jisaku.Usb.Descriptors.{keyboard}
use os_jisaku.Usb.Hid.{
  HidDriver, Notice, contains, k_buffer_size, key_push, on_data_received, on_interrupt_completed,
  pushed_keys,
}

-- A notice is in a list.
pub data IsIn (n : Notice) : List Notice → Type 0 where
  first_notice : {ns : List Notice} → IsIn n (n ∷ ns)
  later_notice : {m : Notice} {ns : List Notice} → IsIn n ns → IsIn n (m ∷ ns)

or_true : (b : Bool) → (b || true) ≡ true
or_true true = refl
or_true false = refl

same_byte : (bytes : ℕ → ℕ) (key i n : ℕ) → i ≡ n → bytes i ≡ key → (bytes n == key) ≡ true
same_byte bytes key i n t e = let g : bytes n ≡ key = rw t at e in ground arith

contains-true :
    (n : ℕ) (bytes : ℕ → ℕ) (key i : ℕ) → i < n → bytes i ≡ key → contains n bytes key ≡ true
unfolding contains
contains-true zero bytes key i lt e = absurd (omega arith)
contains-true (suc n) bytes key i lt e = elim (Bool-cases (i == n)) [
  | inl t ↦
      let g : (bytes n == key) ≡ true = same_byte bytes key i n (==→≡ i n t) e in
      rw g (or_true (contains n bytes key))
  | inr f ↦ rw (contains-true n bytes key i (ground (arith, ==→≢ i n f)) e)
]

contains-false :
    (n : ℕ) (bytes : ℕ → ℕ) (key i : ℕ) → contains n bytes key ≡ false → i < n → bytes i ≢ key
contains-false n bytes key i h lt e =
    let b : true ≡ false = sym (contains-true n bytes key i lt e) ∙ h in absurd cc

none_contains :
    (n : ℕ) (bytes : ℕ → ℕ) (key : ℕ)
    → ((i : ℕ) → i < n → bytes i ≢ key)
    → contains n bytes key ≡ false
unfolding contains
none_contains zero bytes key h = refl
none_contains (suc n) bytes key h =
    let f : (bytes n == key) ≡ false = ground (arith, h n (omega arith)) in
    rw (none_contains n bytes key (λ i lt. h i (omega arith)), f)

IsIn-cons : (n m : Notice) (ns : List Notice) → IsIn n (m ∷ ns) → (n ≡ m) ⊎ IsIn n ns
IsIn-cons n _ ns first_notice = inl refl
IsIn-cons n m ns (later_notice h) = inr h

key_push_inj : (a b : ℕ) → key_push a ≡ key_push b → a ≡ b
key_push_inj a b e = cc

-- A key at a place of the report that is to be notified.
IsPushed : ℕ → ℕ → (ℕ → ℕ) → (ℕ → ℕ) → ℕ → Type 0
IsPushed left i buf previous key =
    (j : ℕ) × (i ≤ j)
    × (j < i + left)
    × (buf j ≡ key)
    × (0 < key)
    × (contains k_buffer_size previous key ≡ false)

IsPushed-later :
    (left i : ℕ) (buf previous : ℕ → ℕ) (key : ℕ)
    → IsPushed left (i + 1) buf previous key
    → IsPushed (suc left) i buf previous key
unfolding IsPushed
IsPushed-later left i buf previous key (j, le, lt, e, p, c) = (j, omega arith, omega arith, e, p, c)

pushed_keys-IsPushed :
    (left i : ℕ) (buf previous : ℕ → ℕ) (key : ℕ)
    → IsIn (key_push key) (pushed_keys left i buf previous)
    → IsPushed left i buf previous key
unfolding pushed_keys IsPushed
pushed_keys-IsPushed zero i buf previous key h = elim h [ ]
pushed_keys-IsPushed (suc left) i buf previous key h = elim (Bool-cases (buf i == 0)) [
  | inl z ↦
      IsPushed-later left i buf previous key
        (pushed_keys-IsPushed left (i + 1) buf previous key (rw z at h))
  | inr z ↦ elim (Bool-cases (contains k_buffer_size previous (buf i))) [
    | inl c ↦
        IsPushed-later left i buf previous key
          (pushed_keys-IsPushed left (i + 1) buf previous key (rw (z, c) at h))
    | inr c ↦ elim (IsIn-cons _ _ _ (rw (z, c) at h)) [
      | inl e ↦
          let k : buf i ≡ key = sym (key_push_inj _ _ e) in
          (i, omega arith, omega arith, k, rw (← k) (ground (arith, ==→≢ _ _ z)), rw (← k) c)
      | inr r ↦
          IsPushed-later left i buf previous key
            (pushed_keys-IsPushed left (i + 1) buf previous key r)
    ]
  ]
]

IsPushed-IsIn :
    (left i : ℕ) (buf previous : ℕ → ℕ) (key : ℕ)
    → IsPushed left i buf previous key
    → IsIn (key_push key) (pushed_keys left i buf previous)
unfolding pushed_keys IsPushed
IsPushed-IsIn zero i buf previous key (j, le, lt, e, p, c) = absurd (omega arith)
IsPushed-IsIn (suc left) i buf previous key (j, le, lt, e, p, c) = elim (Bool-cases (i == j)) [
  | inl t ↦
      let k : buf i ≡ key = rw (==→≡ i j t) e in
      let z : (key == 0) ≡ false = ground arith in rw (k, z, c) first_notice
  | inr f ↦
      let rest =
        IsPushed-IsIn left (i + 1) buf previous key
          (j, ground (arith, ==→≢ i j f), omega arith, e, p, c) in
      elim (Bool-cases (buf i == 0)) [
        | inl z ↦ rw z rest
        | inr z ↦ elim (Bool-cases (contains k_buffer_size previous (buf i))) [
          | inl d ↦ rw (z, d) rest
          | inr d ↦ rw (z, d) (later_notice rest)
        ]
      ]
]

-- A key of the second report that was in none of the bytes received before.
abbrev pub IsNewKey : HidDriver → ℕ → (ℕ → ℕ) → (ℕ → ℕ) → ℕ → Type 0
IsNewKey d n first second key =
    (j : ℕ) × (2 ≤ j)
    × (j < 8)
    × (second j ≡ key)
    × (0 < key)
    × ((i : ℕ) → i < n → first i ≢ key)
    × ((i : ℕ) → n ≤ i → i < k_buffer_size → d.previous_buf i ≢ key)

abbrev overlaid : ℕ → (ℕ → ℕ) → (ℕ → ℕ) → ℕ → ℕ
overlaid n first previous i = if ltb i n then first i else previous i

second_notices :
    (d : HidDriver) (ep_id n : ℕ) (first second : ℕ → ℕ) (len : ℤ)
    → d.kind ≡ keyboard
    → is_in ep_id ≡ true
    → (on_interrupt_completed ep_id second len (on_interrupt_completed ep_id first (pos n) d).2).0
      ≡ pushed_keys 6 2 second (overlaid n first d.previous_buf)
unfolding on_interrupt_completed on_data_received
second_notices d ep_id n first second len kind in_end = rw (in_end, kind)

-- What is in the buffer after a report.
overlaid_low : (n i : ℕ) (first previous : ℕ → ℕ) → i < n → overlaid n first previous i ≡ first i
overlaid_low n i first previous lt = let t : ltb i n ≡ true = ground arith in rw t

overlaid_high :
    (n i : ℕ) (first previous : ℕ → ℕ) → n ≤ i → overlaid n first previous i ≡ previous i
overlaid_high n i first previous le = let f : ltb i n ≡ false = ground arith in rw f

overlaid_none :
    (n i key : ℕ) (first previous : ℕ → ℕ)
    → ((i : ℕ) → i < n → first i ≢ key)
    → ((i : ℕ) → n ≤ i → i < k_buffer_size → previous i ≢ key)
    → i < k_buffer_size
    → overlaid n first previous i ≢ key
overlaid_none n i key first previous low high lt = elim (Bool-cases (ltb i n)) [
  | inl t ↦ rw t (low i (ltb→lt _ _ t))
  | inr f ↦ rw f (high i (ltb→le _ _ f) lt)
]

-- Of a keyboard that has received a report of `n` bytes, `n` at most the size of its buffer: the next
-- report notifies a key exactly when it is in one of the bytes 2 to 7, is not 0, and equals none of the
-- `n` bytes of the report before and none of the bytes that the buffer holds above them. A key that
-- is held is not notified again.
pub key_push-IsNewKey :
    (d : HidDriver) (ep_id n : ℕ) (first second : ℕ → ℕ) (len : ℤ) (key : ℕ)
    → d.kind ≡ keyboard
    → is_in ep_id ≡ true
    → n ≤ k_buffer_size
    → let received = (on_interrupt_completed ep_id first (pos n) d).2 in
      IsIn (key_push key) (on_interrupt_completed ep_id second len received).0
      ↔ IsNewKey d n first second key
unfolding IsPushed
key_push-IsNewKey d ep_id n first second len key kind in_end bound =
    let previous = overlaid n first d.previous_buf in
    rw (second_notices d ep_id n first second len kind in_end) (
      (λ h.
          let (j, le, lt, e, p, c) = pushed_keys-IsPushed 6 2 second previous key h in
          (
            j,
            le,
            omega arith,
            e,
            p,
            (λ i l b.
                contains-false k_buffer_size previous key i c (omega arith)
                  (overlaid_low n i first d.previous_buf l ∙ b)),
            (λ i l m b.
                contains-false k_buffer_size previous key i c m
                  (overlaid_high n i first d.previous_buf l ∙ b)),
          )),
      (λ (j, le, lt, e, p, low, high). IsPushed-IsIn 6 2 second previous key (
        j,
        le,
        omega arith,
        e,
        p,
        none_contains k_buffer_size previous key
            (λ i l. overlaid_none n i key first d.previous_buf low high l),
      )),
    )
