-- ===== src/Pci/Capabilities.antt =====
-- The walk over a device's list of capabilities.
use os_jisaku.Pci.{Device, read_conf_reg}
use os_jisaku.Pci.Msi.{
  Writes, addr_64_capable, enabled_header, per_vector_mask_capable, reg_at, cap_id, next_ptr,
}
use os_jisaku.Prelude.{Bool, List, false, [], if◌then◌else◌, ℕ, ◌<◌, ◌==◌, ◌∷◌, ◌≡◌, ◌||◌, ◌++◌}

module _ (config : ℕ → ℕ) (d : Device) where
  -- The addresses of the list from `addr` on, which ends with a null address.
  abbrev pub IsChain : ℕ → List ℕ → Type 0
  IsChain addr [] = addr ≡ 0
  IsChain addr (c ∷ cs) = (addr ≡ c) × (0 < c) × IsChain (next_ptr (read_conf_reg config d c)) cs

  abbrev pub has_id : ℕ → ℕ → Bool
  has_id id c = cap_id (read_conf_reg config d c) == id

  -- The last address of the list with a capability of the kind, or `start`.
  abbrev pub last_with : ℕ → ℕ → List ℕ → ℕ
  last_with id start [] = start
  last_with id start (c ∷ cs) = last_with id (if has_id id c then c else start) cs

  -- Some capability of the list is of the kind.
  abbrev pub any_with : ℕ → List ℕ → Bool
  any_with id [] = false
  any_with id (c ∷ cs) = has_id id c || any_with id cs

  -- The words that are written to the capability at `c`: the new header, the address of the message and
  -- its data, and what the device has beside them as it was read.
  abbrev pub msi_words : ℕ → ℕ → ℕ → ℕ → Writes
  msi_words c msg_addr msg_data exponent =
      let header = read_conf_reg config d c in
      let data_addr = reg_at c (if addr_64_capable header then 12 else 8) in
      (c, enabled_header header exponent)
      ∷ (reg_at c 4, msg_addr)
      ∷ ((if addr_64_capable header
            then (reg_at c 8, read_conf_reg config d (reg_at c 8)) ∷ []
            else [])
          ++ ((data_addr, msg_data)
              ∷ (if per_vector_mask_capable header
                  then (reg_at data_addr 4, read_conf_reg config d (reg_at data_addr 4))
                    ∷ (reg_at data_addr 8, read_conf_reg config d (reg_at data_addr 8))
                    ∷ []
                  else [])))
