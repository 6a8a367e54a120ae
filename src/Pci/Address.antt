-- ===== src/Pci/Address.antt =====
-- The configuration address, field by field.
use os_jisaku.Pci.{make_address}
use os_jisaku.Prelude.{
  ==→≡, all_below, all_below_sound, arith, bit_and, refl, true, ℕ, ◌%◌, ◌*◌, ◌+◌, ◌-◌, ◌/◌, ◌<◌,
  ◌==◌, ◌^◌, ◌≡◌,
}
use os_jisaku.Prelude.Bits.Single.{bit_or-disjoint}

low_bits : (r : ℕ) → r < 2 ^ 8 → bit_and r 0xfc ≡ r - r % 4
low_bits r h = ==→≡ _ _ (all_below_sound 256 (λ r. bit_and r 0xfc == r - r % 4) r table h)
  where
    table : all_below 256 (λ r. bit_and r 0xfc == r - r % 4) ≡ true
    table = refl

make_address-sum :
    (bus device function reg_addr : ℕ)
    → bus < 2 ^ 8
    → device < 2 ^ 5
    → function < 2 ^ 3
    → reg_addr < 2 ^ 8
    → make_address bus device function reg_addr
      ≡ 2 ^ 31 + bus * 2 ^ 16 + device * 2 ^ 11 + function * 2 ^ 8 + (reg_addr - reg_addr % 4)
unfolding make_address
make_address-sum bus device function reg_addr hb hd hf hr =
    let mb : bus * 2 ^ 16 % 2 ^ 32 ≡ bus * 2 ^ 16 = omega arith in
    let md : device * 2 ^ 11 % 2 ^ 32 ≡ device * 2 ^ 11 = omega arith in
    let mf : function * 2 ^ 8 % 2 ^ 32 ≡ function * 2 ^ 8 = omega arith in
    let s1 = bit_or-disjoint 31 (2 ^ 31) (bus * 2 ^ 16) 1 refl (omega arith) in
    let s2 =
      bit_or-disjoint 16 (2 ^ 31 + bus * 2 ^ 16) (device * 2 ^ 11) (2 ^ 15 + bus) (omega arith)
        (omega arith) in
    let s3 =
      bit_or-disjoint 11 (2 ^ 31 + bus * 2 ^ 16 + device * 2 ^ 11) (function * 2 ^ 8)
        (2 ^ 20 + bus * 2 ^ 5 + device) (omega arith) (omega arith) in
    let s4 =
      bit_or-disjoint 8 (2 ^ 31 + bus * 2 ^ 16 + device * 2 ^ 11 + function * 2 ^ 8)
        (reg_addr - reg_addr % 4) (2 ^ 23 + bus * 2 ^ 8 + device * 2 ^ 3 + function) (omega arith)
        (omega arith) in
    rw (mb, md, mf, s1, s2, s3, low_bits reg_addr hr, s4)

-- The address holds the enable bit, the bus, the device, the function and the register, each in its
-- own bits; the two lowest bits of the register are dropped.
pub make_address-fields :
    (bus device function reg_addr : ℕ)
    → bus < 2 ^ 8
    → device < 2 ^ 5
    → function < 2 ^ 3
    → reg_addr < 2 ^ 8
    → (make_address bus device function reg_addr / 2 ^ 31 ≡ 1)
      × (make_address bus device function reg_addr / 2 ^ 16 % 2 ^ 8 ≡ bus)
      × (make_address bus device function reg_addr / 2 ^ 11 % 2 ^ 5 ≡ device)
      × (make_address bus device function reg_addr / 2 ^ 8 % 2 ^ 3 ≡ function)
      × (make_address bus device function reg_addr % 2 ^ 8 ≡ reg_addr - reg_addr % 4)
make_address-fields bus device function reg_addr hb hd hf hr =
    let e = make_address-sum bus device function reg_addr hb hd hf hr in
    (omega (arith, e), omega (arith, e), omega (arith, e), omega (arith, e), omega (arith, e))
