-- ===== src/Pci/Msi.antt =====
-- kernel/pci.cpp: message signalled interrupts. What is written to the configuration space is a list
-- of registers with their words, the first write first.
use os_jisaku.Errors.{Code, no_pci_msi, not_implemented, success}
use os_jisaku.Pci.{Device, read_conf_reg}
use os_jisaku.Prelude.{
  Bool, List, Option, [], arith, if◌then◌else◌, leb, min, none, not, some, suc, zero, ℕ, ◌%◌, ◌*◌,
  ◌++◌, ◌+◌, ◌/◌, ◌==◌, ◌^◌, ◌∷◌, ◌≡◌,
}

pub record MsiCapability : Type 0 where
  pub header : ℕ
  pub msg_addr : ℕ
  pub msg_upper_addr : ℕ
  pub msg_data : ℕ
  pub mask_bits : ℕ
  pub pending_bits : ℕ

-- The fields of the header.
abbrev pub cap_id : ℕ → ℕ
cap_id header = header % 2 ^ 8

abbrev pub next_ptr : ℕ → ℕ
next_ptr header = header / 2 ^ 8 % 2 ^ 8

abbrev pub multi_msg_capable : ℕ → ℕ
multi_msg_capable header = header / 2 ^ 17 % 2 ^ 3

abbrev pub addr_64_capable : ℕ → Bool
addr_64_capable header = header / 2 ^ 23 % 2 == 1

abbrev pub per_vector_mask_capable : ℕ → Bool
per_vector_mask_capable header = header / 2 ^ 24 % 2 == 1

abbrev pub set_multi_msg_enable : ℕ → ℕ → ℕ
set_multi_msg_enable v header = header / 2 ^ 23 * 2 ^ 23 + v % 2 ^ 3 * 2 ^ 20 + header % 2 ^ 20

abbrev pub set_msi_enable : ℕ → ℕ
set_msi_enable header = header / 2 ^ 17 * 2 ^ 17 + 2 ^ 16 + header % 2 ^ 16

abbrev pub capability_msi : ℕ
capability_msi = 0x05

abbrev pub capability_msix : ℕ
capability_msix = 0x11

-- `cap_addr + n`, as a `std::uint8_t`.
abbrev pub reg_at : ℕ → ℕ → ℕ
reg_at cap_addr n = (cap_addr + n) % 2 ^ 8

abbrev pub Writes : Type 0
Writes = List (ℕ × ℕ)

abbrev pub msg_data_addr : ℕ → ℕ → ℕ
msg_data_addr cap_addr header = reg_at cap_addr (if addr_64_capable header then 12 else 8)

unfoldable pub write_msi_capability : ℕ → MsiCapability → Writes
write_msi_capability cap_addr m =
    let data_addr = msg_data_addr cap_addr m.header in
    (cap_addr, m.header)
    ∷ (reg_at cap_addr 4, m.msg_addr)
    ∷ ((if addr_64_capable m.header then (reg_at cap_addr 8, m.msg_upper_addr) ∷ [] else [])
        ++ ((data_addr, m.msg_data)
            ∷ (if per_vector_mask_capable m.header
                then (reg_at data_addr 4, m.mask_bits) ∷ (reg_at data_addr 8, m.pending_bits) ∷ []
                else [])))

-- The header that `configure_msi_register` writes.
unfoldable pub enabled_header : ℕ → ℕ → ℕ
enabled_header header num_vector_exponent = set_msi_enable (
    set_multi_msg_enable
      (if leb (multi_msg_capable header) num_vector_exponent
        then multi_msg_capable header
        else num_vector_exponent)
      header)

module _ (config : ℕ → ℕ) (d : Device) where
  unfoldable pub read_msi_capability : ℕ → MsiCapability
  unfolding read_conf_reg
  read_msi_capability cap_addr =
      let header = read_conf_reg config d cap_addr in
      let data_addr = msg_data_addr cap_addr header in
      record {
        header = header;
        msg_addr = read_conf_reg config d (reg_at cap_addr 4);
        msg_upper_addr =
            if addr_64_capable header then read_conf_reg config d (reg_at cap_addr 8) else 0;
        msg_data = read_conf_reg config d data_addr;
        mask_bits =
            if per_vector_mask_capable header
            then read_conf_reg config d (reg_at data_addr 4)
            else 0;
        pending_bits =
            if per_vector_mask_capable header
            then read_conf_reg config d (reg_at data_addr 8)
            else 0;
      }

  unfoldable pub configure_msi_register : ℕ → ℕ → ℕ → ℕ → Code × Writes
  unfolding read_msi_capability write_msi_capability enabled_header
  configure_msi_register cap_addr msg_addr msg_data num_vector_exponent =
      let msi_cap = read_msi_capability cap_addr in
      (
        success,
        write_msi_capability cap_addr (record msi_cap {
          header = enabled_header msi_cap.header num_vector_exponent;
          msg_addr = msg_addr;
          msg_data = msg_data;
        }),
      )

  -- The loop over the capabilities, with the addresses found so far; `none` is a loop that ran out
  -- of fuel.
  unfoldable pub find_capabilities : ℕ → ℕ → ℕ → ℕ → Option (ℕ × ℕ)
  unfolding read_conf_reg
  find_capabilities fuel zero msi_cap_addr msix_cap_addr = some (msi_cap_addr, msix_cap_addr)
  find_capabilities zero (suc cap_addr) msi_cap_addr msix_cap_addr = none
  find_capabilities (suc fuel) (suc cap_addr) msi_cap_addr msix_cap_addr =
      let header = read_conf_reg config d (suc cap_addr) in
      find_capabilities fuel (next_ptr header)
        (if cap_id header == capability_msi then suc cap_addr else msi_cap_addr)
        (if cap_id header == capability_msi
          then msix_cap_addr
          else if cap_id header == capability_msix
          then suc cap_addr
          else msix_cap_addr)

  -- What `configure_msi` does with the addresses.
  abbrev pub configure_found : ℕ → ℕ → ℕ → ℕ × ℕ → Code × Writes
  configure_found msg_addr msg_data num_vector_exponent (msi_cap_addr, msix_cap_addr) =
      if not (msi_cap_addr == 0)
      then configure_msi_register msi_cap_addr msg_addr msg_data num_vector_exponent
      else if not (msix_cap_addr == 0)
      then (not_implemented, [])
      else (no_pci_msi, [])

  unfoldable pub configure_msi : ℕ → ℕ → ℕ → ℕ → Option (Code × Writes)
  unfolding find_capabilities configure_msi_register read_conf_reg
  configure_msi fuel msg_addr msg_data num_vector_exponent =
      elim (find_capabilities fuel (read_conf_reg config d 0x34 % 2 ^ 8) 0 0) [
        | some addrs ↦ some (configure_found msg_addr msg_data num_vector_exponent addrs)
        | none ↦ none
      ]

-- The header that is written enables the interrupt, with as many messages as the device and the
-- caller allow, and changes no other field.
pub enabled_header-fields :
    (header num_vector_exponent : ℕ)
    → (enabled_header header num_vector_exponent / 2 ^ 16 % 2 ≡ 1)
      × (enabled_header header num_vector_exponent / 2 ^ 20 % 2 ^ 3
          ≡ min (multi_msg_capable header) num_vector_exponent)
      × (enabled_header header num_vector_exponent % 2 ^ 16 ≡ header % 2 ^ 16)
      × (multi_msg_capable (enabled_header header num_vector_exponent) ≡ multi_msg_capable header)
      × (enabled_header header num_vector_exponent / 2 ^ 23 ≡ header / 2 ^ 23)
unfolding enabled_header
enabled_header-fields header n =
    (ground arith, ground arith, ground arith, ground arith, ground arith)
