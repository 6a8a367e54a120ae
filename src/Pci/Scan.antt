-- ===== src/Pci/Scan.antt =====
-- The scan of the buses ends, within the table of devices, whatever the bridges lead to.
use os_jisaku.Errors.{Code, full, is_error, success}
use os_jisaku.Memory.{scan}
use os_jisaku.Pci.{
  Device, Scan, add_device, and_then, is_bridge, is_single_function_device, max_devices,
  read_bus_numbers, read_class_code, read_header_type, read_vendor_id, scan_all_bus, scan_bus,
  scan_buses, scan_device, scan_devices, scan_function, scan_functions,
}
use os_jisaku.Prelude.{
  Bool, Bool-cases, List, [], arith, false, inl, inr, length, length-append, refl, some, suc, true,
  zero, ℕ, ◌%◌, ◌++◌, ◌+◌, ◌/◌, ◌<◌, ◌==◌, ◌^◌, ◌∷◌, ◌≡◌, ◌≢◌, ◌≤◌, ◌⊎◌,
}
use os_jisaku.Prelude.Bits.Single.{single}

module _ (config : ℕ → ℕ) where
  -- A device of the table answers at its own address, and the table holds what it answers.
  pub record IsPresent (d : Device) : Type 0 where
    pub vendor : d.vendor_id ≡ read_vendor_id config d.bus d.device d.function
    pub there : (d.vendor_id == 0xffff) ≡ false
    pub header : d.header_type ≡ read_header_type config d.bus d.device d.function
    pub class : d.class_code ≡ read_class_code config d.bus d.device d.function

  abbrev pub AllPresent : List Device → Type 0
  AllPresent [] = Unit {0}
  AllPresent (d ∷ ds) = IsPresent d × AllPresent ds

  -- A scan that returns, with a table that has grown and is not overfull.
  abbrev pub Returns : List Device → Scan → Type 0
  Returns ds scan =
      (code : Code) × (held : List Device) × (scan ≡ some (code, held))
      × (length ds ≤ length held)
      × (length held ≤ max_devices)
      × AllPresent held

  abbrev IsTable : List Device → Type 0
  IsTable ds = (length ds ≤ max_devices) × AllPresent ds

  AllPresent-append :
      (ds : List Device) (d : Device) → AllPresent ds → IsPresent d → AllPresent (ds ++ (d ∷ []))
  AllPresent-append [] d h hd = (hd, tt)
  AllPresent-append (x ∷ ds) d (hx, h) hd = (hx, AllPresent-append ds d h hd)

  -- A scan that goes on after another returns when both do.
  Returns-and_then :
      (ds : List Device) (first : Scan) (next : List Device → Scan)
      → Returns ds first
      → ((held : List Device) → length ds ≤ length held → IsTable held → Returns held (next held))
      → Returns ds (and_then first next)
  unfolding and_then
  Returns-and_then ds first next (code, held, e, grown, low, all) h =
      elim (Bool-cases (is_error code)) [
        | inl bad ↦ (code, held, rw (e, bad), grown, low, all)
        | inr good ↦
            let (code', held', e', grown', low', all') = h held grown (low, all) in
            (code', held', rw (e, good) e', omega (arith, grown, grown'), low', all')
      ]

  add_device_cases :
      (bus device function : ℕ) (ds : List Device)
      → (read_vendor_id config bus device function == 0xffff) ≡ false
      → (add_device config bus device function ds ≡ (full, ds))
        ⊎ (length ds ≢ max_devices)
          × (d : Device) × IsPresent d
          × (add_device config bus device function ds ≡ (success, ds ++ (d ∷ [])))
  unfolding add_device
  add_device_cases bus device function ds there = elim (Bool-cases (length ds == max_devices)) [
    | inl is_full ↦ inl (rw is_full)
    | inr room ↦ inr (
      ==-false (length ds) max_devices room,
      record {
        bus = bus;
        device = device;
        function = function;
        header_type = read_header_type config bus device function;
        vendor_id = read_vendor_id config bus device function;
        class_code = read_class_code config bus device function;
      },
      record { vendor = refl; there = there; header = refl; class = refl },
      rw room,
    )
  ]
    where
      ==-false : (a b : ℕ) → (a == b) ≡ false → a ≢ b
      ==-false a b h e = ground arith

  -- A round of a loop that skips what is not there.
  Returns-unless :
      (skip : Bool) (ds : List Device) (run : Scan) (next : List Device → Scan)
      → IsTable ds
      → (skip ≡ false → Returns ds run)
      → ((held : List Device) → length ds ≤ length held → IsTable held → Returns held (next held))
      → Returns ds (elim skip [ true ↦ next ds | false ↦ and_then run next ])
  Returns-unless true ds run next table h later = later ds (omega arith) table
  Returns-unless false ds run next table h later = Returns-and_then ds run next (h refl) later

  module _ (n : ℕ) (rescan_bus : ℕ → List Device → Scan)
      (rescan : (bus : ℕ) (ds : List Device)
        → IsTable ds
        → max_devices < n + length ds
        → Returns ds (rescan_bus bus ds)) where
    scan_function-Returns :
        (bus device function : ℕ) (ds : List Device)
        → (read_vendor_id config bus device function == 0xffff) ≡ false
        → IsTable ds
        → max_devices < suc n + length ds
        → Returns ds (scan_function config rescan_bus bus device function ds)
    unfolding scan_function and_then is_error
    scan_function-Returns bus device function ds there (low, all) deep =
        elim (add_device_cases bus device function ds there) [
          | inl e ↦ (full, ds, rw e, omega arith, low, all)
          | inr (room, d, present, e) ↦
              let longer = length-append ds (d ∷ []) in
              let table : IsTable (ds ++ (d ∷ [])) =
                (omega (arith, longer), AllPresent-append ds d all present) in
              elim (Bool-cases (is_bridge (read_class_code config bus device function))) [
                | inl bridge ↦
                    let (code', held', e', grown, low', all') =
                      rescan (read_bus_numbers config bus device function / 2 ^ 8 % 2 ^ 8)
                        (ds ++ (d ∷ [])) table (omega (arith, longer)) in
                    (code', held', rw (e, bridge) e', omega (arith, longer, grown), low', all')
                | inr leaf ↦
                    (success, ds ++ (d ∷ []), rw (e, leaf), omega (arith, longer), table.0, table.1)
              ]
        ]

    scan_functions-Returns :
        (left bus device function : ℕ) (ds : List Device)
        → IsTable ds
        → max_devices < suc n + length ds
        → Returns ds (scan_functions config rescan_bus left bus device function ds)
    unfolding scan_functions
    scan_functions-Returns zero bus device function ds (low, all) deep =
        (success, ds, refl, omega arith, low, all)
    scan_functions-Returns (suc left) bus device function ds table deep =
        Returns-unless (read_vendor_id config bus device function == 0xffff) ds
          (scan_function config rescan_bus bus device function ds)
          (scan_functions config rescan_bus left bus device (function + 1)) table
          (λ e. scan_function-Returns bus device function ds e table deep)
          (λ held grown t.
            scan_functions-Returns left bus device (function + 1) held t (omega arith))

    scan_device-Returns :
        (bus device : ℕ) (ds : List Device)
        → (read_vendor_id config bus device 0 == 0xffff) ≡ false
        → IsTable ds
        → max_devices < suc n + length ds
        → Returns ds (scan_device config rescan_bus bus device ds)
    unfolding scan_device
    scan_device-Returns bus device ds there table deep =
        Returns-and_then ds _ _ (scan_function-Returns bus device 0 ds there table deep)
          (λ held grown t.
            elim (Bool-cases (is_single_function_device (read_header_type config bus device 0))) [
              | inl alone ↦ rw alone (success, held, refl, omega arith, t.0, t.1)
              | inr many ↦ rw many (scan_functions-Returns 7 bus device 1 held t (omega arith))
            ])

    scan_devices-Returns :
        (left bus device : ℕ) (ds : List Device)
        → IsTable ds
        → max_devices < suc n + length ds
        → Returns ds (scan_devices config rescan_bus left bus device ds)
    unfolding scan_devices
    scan_devices-Returns zero bus device ds (low, all) deep =
        (success, ds, refl, omega arith, low, all)
    scan_devices-Returns (suc left) bus device ds table deep =
        Returns-unless (read_vendor_id config bus device 0 == 0xffff) ds
          (scan_device config rescan_bus bus device ds)
          (scan_devices config rescan_bus left bus (device + 1)) table
          (λ e. scan_device-Returns bus device ds e table deep)
          (λ held grown t. scan_devices-Returns left bus (device + 1) held t (omega arith))

  -- Each bridge that is followed takes a place of the table, so the depth is bounded by the places
  -- that are left.
  scan_bus-Returns :
      (fuel bus : ℕ) (ds : List Device)
      → IsTable ds
      → max_devices < fuel + length ds
      → Returns ds (scan_bus config fuel bus ds)
  unfolding scan_bus
  scan_bus-Returns zero bus ds (low, all) deep = absurd (omega arith)
  scan_bus-Returns (suc fuel) bus ds table deep =
      scan_devices-Returns fuel (scan_bus config fuel)
        (λ bus' ds' t h. scan_bus-Returns fuel bus' ds' t h) 32 bus 0 ds table deep

  scan_buses-Returns :
      (left function : ℕ) (ds : List Device)
      → IsTable ds
      → Returns ds (scan_buses config left function ds)
  unfolding scan_buses
  scan_buses-Returns zero function ds (low, all) = (success, ds, refl, omega arith, low, all)
  scan_buses-Returns (suc left) function ds table =
      Returns-unless (read_vendor_id config 0 0 function == 0xffff) ds
        (scan_bus config (max_devices + 1) function ds) (scan_buses config left (function + 1))
        table (λ e. scan_bus-Returns (max_devices + 1) function ds table (omega arith))
        (λ held grown t. scan_buses-Returns left (function + 1) held t)

  -- Whatever the hardware answers, even when bridges lead back to buses above them, `scan_all_bus`
  -- returns; the table holds 32 devices at most, and every device in it answered the scan at its
  -- address with the header type, vendor and class that the table holds.
  pub scan_all_bus-Returns : Returns [] (scan_all_bus config)
  unfolding scan_all_bus
  scan_all_bus-Returns =
      elim (Bool-cases (is_single_function_device (read_header_type config 0 0 0))) [
        | inl single ↦
            rw single (scan_bus-Returns (max_devices + 1) 0 [] (omega arith, tt) (omega arith))
        | inr many ↦ rw many (scan_buses-Returns 7 1 [] (omega arith, tt))
      ]

  -- A host bridge with several functions of which only the first is there is not scanned: no device
  -- of bus 0 is found.
  pub scan_all_bus-skips_bus_0 :
      is_single_function_device (read_header_type config 0 0 0) ≡ false
      → ((function : ℕ)
          → 0 < function
          → function < 8
          → (read_vendor_id config 0 0 function == 0xffff) ≡ true)
      → scan_all_bus config ≡ some (success, [])
  unfolding scan_all_bus scan_buses
  scan_all_bus-skips_bus_0 many absent = rw many (skipped 7 1 (omega arith) (omega arith))
    where
      skipped :
          (left function : ℕ)
          → 0 < function
          → function + left ≤ 8
          → scan_buses config left function [] ≡ some (success, [])
      skipped zero function h h' = refl
      skipped (suc left) function h h' =
          rw (absent function h (omega arith), scan_buses)
            (skipped left (function + 1) (omega arith) (omega arith))
