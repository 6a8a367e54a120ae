-- ===== src/Pci/Tests.antt =====
-- Small buses, and the theorems at these inputs.
use os_jisaku.Pci.{Device, find_xhc_device, make_address, read_vendor_id, scan_all_bus}
use os_jisaku.Pci.Address.{make_address-fields}
use os_jisaku.Pci.Scan.{Returns, scan_all_bus-Returns}
use os_jisaku.Pci.Xhc.{Chosen, find_xhc_device-Chosen}
use os_jisaku.Prelude.{
  [], arith, false, if◌then◌else◌, some, true, ℕ, ◌%◌, ◌/◌, ◌<◌, ◌==◌, ◌^◌, ◌∷◌, ◌≡◌,
}

-- One USB controller of Intel's at device 3 of bus 0.
abbrev one_controller : ℕ → ℕ
one_controller a =
    if a / 2 ^ 8 % 2 ^ 16 == 24
    then (if a % 2 ^ 8 == 0 then 0x8086 else if a % 2 ^ 8 == 8 then 0x0c033000 else 0)
    else 0xffffffff

-- A host bridge with several functions, of which only the first is there.
abbrev host_bridge : ℕ → ℕ
host_bridge a =
    if a / 2 ^ 8 % 2 ^ 3 == 0
    then (if a % 2 ^ 8 == 0 then 0x8086 else if a % 2 ^ 8 == 12 then 0x800000 else 0x06000000)
    else 0xffffffff

abbrev device_at : ℕ → ℕ → Device
device_at n vendor = record {
  bus = 0;
  device = n;
  function = 0;
  header_type = 0;
  vendor_id = vendor;
  class_code = record { base = 0x0c; subclass = 0x03; interface = 0x30 };
}

scan_all_bus-Returns_example : Returns one_controller [] (scan_all_bus one_controller)
scan_all_bus-Returns_example = scan_all_bus-Returns one_controller

absent : (f : ℕ) → 0 < f → f < 8 → (read_vendor_id host_bridge 0 0 f == 0xffff) ≡ true
unfolding read_vendor_id
absent f low high =
    let field : make_address 0 0 f 0 / 2 ^ 8 % 2 ^ 3 ≡ f =
      (make_address-fields 0 0 f 0 (omega arith) (omega arith) (omega arith) (omega arith)).3 in
    let other : (f == 0) ≡ false = ground arith in rw (field, other)

find_xhc_device-Chosen_example :
    Chosen
      (device_at 1 0x1033 ∷ device_at 2 0x8086 ∷ device_at 3 0x8086 ∷ [])
      (some (device_at 2 0x8086))
unfolding find_xhc_device
find_xhc_device-Chosen_example =
    find_xhc_device-Chosen (device_at 1 0x1033 ∷ device_at 2 0x8086 ∷ device_at 3 0x8086 ∷ [])

-- A device with a power management capability at 0x40 and MSI at 0x50.
abbrev with_msi : ℕ → ℕ
with_msi a =
    if a % 2 ^ 8 == 0x34
    then 0x40
    else if a % 2 ^ 8 == 0x40
    then 0x5001
    else if a % 2 ^ 8 == 0x50
    then 0x00860005
    else 0

abbrev msi_device : Device
msi_device = device_at 3 0x8086
