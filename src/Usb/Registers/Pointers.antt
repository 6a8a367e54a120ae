-- ===== src/Usb/Registers/Pointers.antt =====
-- kernel/usb/interface/usb/xhci/registers.hpp: addresses in registers.
use os_jisaku.Prelude.{
  List, [], arith, if◌then◌else◌, refl, sym, ℕ, ◌%◌, ◌+◌, ◌-◌, ◌/◌, ◌<◌, ◌==◌, ◌^◌, ◌∙◌, ◌∷◌, ◌≡◌,
  ◌≢◌,
}
use os_jisaku.Prelude.Bits.Fields.{get_field-set_field, get_field-set_field_ne}
use os_jisaku.Usb.Registers.{
  PointerRegister, Register, command_ring, contexts, crcr_layout, dcbaap, dcbaap_layout, dequeue,
  erdp_layout, erstba_layout, field, pointer_field, pointer_shift, register_bits, register_layout,
  register_of, register_pointer, segment_table, set_register_pointer,
}

-- The widths of a layout, added up.
abbrev pub total : List ℕ → ℕ
total [] = 0
total (w ∷ ws) = w + total ws

-- What is read back of an address: the address, but for DCBAAP its lowest 31 bits below copies of bit 31.
abbrev pub read_back : PointerRegister → ℕ → ℕ
read_back contexts address =
    if address / 2 ^ 31 % 2 == 0 then address % 2 ^ 31 else 2 ^ 64 - 2 ^ 31 + address % 2 ^ 31
read_back _ address = address

-- The fields of every register fill its word, except those of DCBAAP, which fill 32 bits of 64.
pub widths_fill :
    (r : Register)
    → (r ≢ dcbaap → total (register_layout r) ≡ register_bits r) × (total dcbaap_layout ≡ 32)
widths_fill r = (λ ne. ground arith, refl)

register_pointer-set :
    (r : PointerRegister) (address value : ℕ)
    → address % 2 ^ pointer_shift r ≡ 0
    → address < 2 ^ 64
    → register_pointer r (set_register_pointer r address value) ≡ read_back r address
unfolding register_pointer set_register_pointer
register_pointer-set command_ring address value aligned small =
    rw (get_field-set_field crcr_layout 5 (address / 2 ^ 6) value (omega arith)) (omega arith)
register_pointer-set contexts address value aligned small =
    rw (get_field-set_field dcbaap_layout 1 (address / 2 ^ 6) value (omega arith)) (ground arith)
register_pointer-set segment_table address value aligned small =
    rw (get_field-set_field erstba_layout 1 (address / 2 ^ 6) value (omega arith)) (omega arith)
register_pointer-set dequeue address value aligned small =
    rw (get_field-set_field erdp_layout 2 (address / 2 ^ 4) value (omega arith)) (omega arith)

read_back_low :
    (r : PointerRegister) (address : ℕ) → address < 2 ^ 31 → read_back r address ≡ address
read_back_low r address low = ground arith

-- Setting the pointer of a register to a 64-bit address that is aligned as the register asks leaves
-- every other field. An address below 2 ^ 31 is read back from every register, and any address from
-- every register but DCBAAP; from DCBAAP the lowest 31 bits of an address are read back, below
-- copies of its bit 31.
pub set_register_pointer-keeps :
    (r : PointerRegister) (address value : ℕ)
    → address % 2 ^ pointer_shift r ≡ 0
    → address < 2 ^ 64
    → (register_pointer r (set_register_pointer r address value) ≡ read_back r address)
      × (address < 2 ^ 31 → register_pointer r (set_register_pointer r address value) ≡ address)
      × ((j : ℕ)
          → j ≢ pointer_field r
          → field (register_of r) j (set_register_pointer r address value)
            ≡ field (register_of r) j value)
unfolding set_register_pointer field
set_register_pointer-keeps r address value aligned small = (
  register_pointer-set r address value aligned small,
  λ low. register_pointer-set r address value aligned small ∙ read_back_low r address low,
  λ j other.
      get_field-set_field_ne (register_layout (register_of r)) (pointer_field r) j
        (address / 2 ^ pointer_shift r) value (λ e. other (sym e)),
)
