-- ===== src/Usb/Registers/PortStatus.antt =====
-- kernel/usb/xhci/port.cpp and kernel/usb/interface/usb/xhci/port.hpp: the register PORTSC of a port.
use os_jisaku.Prelude.{
  ==→≡, ==→≢, Bool, Bool-cases, all_below, all_below_sound, arith, bit_and, bit_or, false,
  if◌then◌else◌, inl, inr, not, refl, sym, true, ℕ, ◌%◌, ◌&&◌, ◌-◌, ◌<◌, ◌==◌, ◌^◌, ◌||◌, ◌∙◌, ◌≡◌,
}
use os_jisaku.Prelude.Bits.Fields.{
  field_width, get_field, get_field-set_field, get_field-set_field_ne,
}
use os_jisaku.Prelude.Bits.Words.{bit_or-flag, get_field-bit_or, get_field-mask}
use os_jisaku.Usb.Registers.{field, portsc, portsc_layout, with_field}

-- The status that a port shows: connected, enabled, changed, reset done, and its speed.
unfoldable pub is_connected : ℕ → Bool
unfolding field
is_connected value = not (field portsc 0 value == 0)

unfoldable pub is_enabled : ℕ → Bool
unfolding field
is_enabled value = not (field portsc 1 value == 0)

unfoldable pub is_connect_status_changed : ℕ → Bool
unfolding field
is_connect_status_changed value = not (field portsc 10 value == 0)

unfoldable pub is_port_reset_changed : ℕ → Bool
unfolding field
is_port_reset_changed value = not (field portsc 14 value == 0)

unfoldable pub speed : ℕ → ℕ
unfolding field
speed value = field portsc 7 value

-- `Port::Reset`: the value that is written.
unfoldable pub reset_value : ℕ → ℕ
reset_value value = bit_or (bit_and value 0x0e00c3e0) 0x00020010

-- `CLEAR_STATUS_BIT`: the value that is written, for the position of the field.
unfoldable pub clear_status_bit : ℕ → ℕ → ℕ
unfolding with_field
clear_status_bit i value = with_field portsc i 1 (bit_and value 0x0e01c3e0)

-- The three writes to the register: `Reset`, `ClearConnectStatusChanged`, `ClearPortResetChange`.
pub data PortWrite : Type 0 where
  reset clear_connect_status_changed clear_port_reset_change : PortWrite

unfoldable pub port_write : PortWrite → ℕ → ℕ
unfolding reset_value clear_status_bit
port_write reset value = reset_value value
port_write clear_connect_status_changed value = clear_status_bit 10 value
port_write clear_port_reset_change value = clear_status_bit 14 value

-- The fields that a write sets to 1, and those of the others that it leaves as they were read.
abbrev pub raised : PortWrite → ℕ → Bool
raised reset j = j == 4 || j == 10
raised clear_connect_status_changed j = j == 10
raised clear_port_reset_change j = j == 14

abbrev pub left : PortWrite → ℕ → Bool
left reset j = j == 5 || j == 6 || j == 8 || j == 18 || j == 19 || j == 20
left _ j = j == 5 || j == 6 || j == 8 || j == 9 || j == 18 || j == 19 || j == 20

-- What a field of a mask is where the mask covers `b`.
abbrev covering : Bool → ℕ → ℕ
covering b j = if b then 2 ^ field_width portsc_layout j - 1 else 0

abbrev flag : Bool → ℕ
flag b = if b then 1 else 0

reset_mask :
    all_below 24 (λ j. get_field portsc_layout j 0x0e00c3e0 == covering (left reset j) j) ≡ true
unfolding get_field
reset_mask = refl

reset_flags :
    all_below 24 (λ j. get_field portsc_layout j 0x00020010 == flag (raised reset j)) ≡ true
unfolding get_field
reset_flags = refl

reset_apart : (j : ℕ) → raised reset j && left reset j ≡ false
reset_apart j = ground arith

status_mask :
    all_below 24
      (λ j. get_field portsc_layout j 0x0e01c3e0 == covering (left clear_port_reset_change j) j)
    ≡ true
unfolding get_field
status_mask = refl

masked :
    (m : ℕ) (kept : ℕ → Bool) (j x : ℕ)
    → all_below 24 (λ j. get_field portsc_layout j m == covering (kept j) j) ≡ true
    → j < 24
    → get_field portsc_layout j (bit_and x m) ≡ (if kept j then get_field portsc_layout j x else 0)
masked m kept j x table h = get_field-mask portsc_layout j x m (kept j) h (
    ==→≡ (get_field portsc_layout j m) (covering (kept j) j)
      (all_below_sound 24 (λ i. get_field portsc_layout i m == covering (kept i) i) j table h))

reset-fields :
    (j x : ℕ)
    → j < 24
    → get_field portsc_layout j (reset_value x)
      ≡ (if raised reset j then 1 else if left reset j then get_field portsc_layout j x else 0)
unfolding reset_value
reset-fields j x h = rw (get_field-bit_or portsc_layout j (bit_and x 0x0e00c3e0) 0x00020010) (
    bit_or-flag (get_field portsc_layout j (bit_and x 0x0e00c3e0))
      (get_field portsc_layout j 0x00020010) (get_field portsc_layout j x) (raised reset j)
      (left reset j) (masked 0x0e00c3e0 (left reset) j x reset_mask h)
      (==→≡ (get_field portsc_layout j 0x00020010) (flag (raised reset j)) (
        all_below_sound 24 (λ i. get_field portsc_layout i 0x00020010 == flag (raised reset i)) j
          reset_flags h))
      (reset_apart j))

clear-fields :
    (i j x : ℕ)
    → i < 24
    → 1 ≡ 1 % 2 ^ field_width portsc_layout i
    → j < 24
    → get_field portsc_layout j (clear_status_bit i x) ≡ (
        if j == i
        then 1
        else if left clear_port_reset_change j
        then get_field portsc_layout j x
        else 0)
unfolding clear_status_bit with_field
clear-fields i j x hi one h = elim (Bool-cases (j == i)) [
  | inl e ↦
      rw (e, ==→≡ j i e) (get_field-set_field portsc_layout i 1 (bit_and x 0x0e01c3e0) hi ∙ sym one)
  | inr e ↦
      rw
        (
          e,
          get_field-set_field_ne portsc_layout i j 1 (bit_and x 0x0e01c3e0)
              (λ q. ==→≢ j i e (sym q)),
        )
        (masked 0x0e01c3e0 (left clear_port_reset_change) j x status_mask h)
]

-- Each write to PORTSC sets its own flags, leaves the link state, the power, the indicator and the
-- wake fields as they were read, and writes 0 to every other change flag and to the rest of the
-- fields. The two writes that clear a flag also leave the write strobe of the link state as it was
-- read, where the reset writes 0 to it.
pub port_write-fields :
    (w : PortWrite) (j value : ℕ)
    → j < 24
    → field portsc j (port_write w value)
      ≡ (if raised w j then 1 else if left w j then field portsc j value else 0)
unfolding port_write field
port_write-fields reset j value h = reset-fields j value h
port_write-fields clear_connect_status_changed j value h =
    clear-fields 10 j value (omega arith) refl h
port_write-fields clear_port_reset_change j value h = clear-fields 14 j value (omega arith) refl h
