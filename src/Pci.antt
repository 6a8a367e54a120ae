-- ===== src/Pci.antt =====
-- kernel/pci.hpp and pci.cpp: the configuration space, the scan of the buses and the choice of the
-- USB controller. The hardware is the parameter `config`: the word that a read of the data port
-- gives after an address is written to the address port. Reads change nothing.
pub mod Address
pub mod Scan
pub mod Xhc
pub mod Msi
pub mod Capabilities
mod Tests
use os_jisaku.Errors.{Code, WithError, full, index_out_of_range, is_error, success}
use os_jisaku.Prelude.{
  Bool, List, Option, [], bit_and, bit_or, false, if◌then◌else◌, leb, length, none, some, suc, true,
  zero, ℕ, ◌%◌, ◌&&◌, ◌*◌, ◌++◌, ◌+◌, ◌/◌, ◌==◌, ◌^◌, ◌∷◌,
}

pub record ClassCode : Type 0 where
  pub base : ℕ
  pub subclass : ℕ
  pub interface : ℕ

-- `match` with one, two and three arguments.
abbrev pub match_base : ClassCode → ℕ → Bool
match_base c b = b == c.base

abbrev pub match_sub : ClassCode → ℕ → ℕ → Bool
match_sub c b s = match_base c b && s == c.subclass

unfoldable pub match_interface : ClassCode → ℕ → ℕ → ℕ → Bool
match_interface c b s i = match_sub c b s && i == c.interface

pub record Device : Type 0 where
  pub bus : ℕ
  pub device : ℕ
  pub function : ℕ
  pub header_type : ℕ
  pub vendor_id : ℕ
  pub class_code : ClassCode

unfoldable pub make_address : ℕ → ℕ → ℕ → ℕ → ℕ
make_address bus device function reg_addr =
    bit_or
      (bit_or (bit_or (bit_or (2 ^ 31) (bus * 2 ^ 16 % 2 ^ 32)) (device * 2 ^ 11 % 2 ^ 32))
        (function * 2 ^ 8 % 2 ^ 32))
      (bit_and reg_addr 0xfc)

unfoldable pub calc_bar_address : ℕ → ℕ
calc_bar_address bar_index = (0x10 + 4 * bar_index) % 2 ^ 8

unfoldable pub is_single_function_device : ℕ → Bool
is_single_function_device header_type = bit_and header_type 0x80 == 0

-- `devices.size()`.
abbrev pub max_devices : ℕ
max_devices = 32

-- A bridge from one PCI bus to another.
abbrev pub is_bridge : ClassCode → Bool
is_bridge c = c.base == 0x06 && c.subclass == 0x04

-- What a scan returns, with the devices found so far; `none` is a scan that ran out of fuel.
abbrev pub Scan : Type 0
Scan = Option (Code × List Device)

-- `if (auto err = ...) return err;`, and on without an error.
unfoldable pub and_then : Scan → (List Device → Scan) → Scan
unfolding is_error
and_then none next = none
and_then (some (code, ds)) next = if is_error code then some (code, ds) else next ds

module _ (config : ℕ → ℕ) where
  unfoldable pub read_vendor_id : ℕ → ℕ → ℕ → ℕ
  unfolding make_address
  read_vendor_id bus device function = config (make_address bus device function 0x00) % 2 ^ 16

  unfoldable pub read_header_type : ℕ → ℕ → ℕ → ℕ
  unfolding make_address
  read_header_type bus device function =
      config (make_address bus device function 0x0c) / 2 ^ 16 % 2 ^ 8

  unfoldable pub read_class_code : ℕ → ℕ → ℕ → ClassCode
  unfolding make_address
  read_class_code bus device function =
      let word = config (make_address bus device function 0x08) in
      record {
        base = word / 2 ^ 24 % 2 ^ 8;
        subclass = word / 2 ^ 16 % 2 ^ 8;
        interface = word / 2 ^ 8 % 2 ^ 8;
      }

  unfoldable pub read_bus_numbers : ℕ → ℕ → ℕ → ℕ
  unfolding make_address
  read_bus_numbers bus device function = config (make_address bus device function 0x18)

  unfoldable pub read_conf_reg : Device → ℕ → ℕ
  unfolding make_address
  read_conf_reg d reg_addr = config (make_address d.bus d.device d.function reg_addr)

  unfoldable pub read_bar : Device → ℕ → WithError ℕ
  unfolding read_conf_reg calc_bar_address
  read_bar d bar_index =
      let addr = calc_bar_address bar_index in
      let bar = read_conf_reg d addr in
      if leb 6 bar_index
      then record { value = 0; error = index_out_of_range }
      else if bit_and bar 4 == 0
      then record { value = bar; error = success }
      else if leb 5 bar_index
      then record { value = 0; error = index_out_of_range }
      else record {
        value = bit_or bar (read_conf_reg d ((addr + 4) % 2 ^ 8) * 2 ^ 32);
        error = success;
      }

  unfoldable pub add_device : ℕ → ℕ → ℕ → List Device → Code × List Device
  unfolding read_vendor_id read_header_type read_class_code
  add_device bus device function ds = if length ds == max_devices then (full, ds) else (
    success,
    ds
        ++ (record {
          bus = bus;
          device = device;
          function = function;
          header_type = read_header_type bus device function;
          vendor_id = read_vendor_id bus device function;
          class_code = read_class_code bus device function;
        }
            ∷ []),
  )

  -- The functions that scan one function or device call `scan_bus` again for a bridge.
  module _ (rescan_bus : ℕ → List Device → Scan) where
    unfoldable pub scan_function : ℕ → ℕ → ℕ → List Device → Scan
    unfolding add_device and_then read_class_code read_bus_numbers
    scan_function bus device function ds =
        let class_code = read_class_code bus device function in
        and_then (some (add_device bus device function ds)) (λ ds'.
          if is_bridge class_code
          then rescan_bus (read_bus_numbers bus device function / 2 ^ 8 % 2 ^ 8) ds'
          else some (success, ds'))

    -- The loop over the functions of a device, with `left` functions to go.
    unfoldable pub scan_functions : ℕ → ℕ → ℕ → ℕ → List Device → Scan
    unfolding scan_function and_then read_vendor_id
    scan_functions zero bus device function ds = some (success, ds)
    scan_functions (suc left) bus device function ds =
        elim (read_vendor_id bus device function == 0xffff) [
          | true ↦ scan_functions left bus device (function + 1) ds
          | false ↦
              and_then (scan_function bus device function ds)
                (scan_functions left bus device (function + 1))
        ]

    unfoldable pub scan_device : ℕ → ℕ → List Device → Scan
    unfolding scan_functions scan_function and_then is_single_function_device read_header_type
    scan_device bus device ds = and_then (scan_function bus device 0 ds) (λ ds'.
        if is_single_function_device (read_header_type bus device 0)
        then some (success, ds')
        else scan_functions 7 bus device 1 ds')

    -- The loop of `scan_bus`, with `left` devices to go.
    unfoldable pub scan_devices : ℕ → ℕ → ℕ → List Device → Scan
    unfolding scan_device and_then read_vendor_id
    scan_devices zero bus device ds = some (success, ds)
    scan_devices (suc left) bus device ds = elim (read_vendor_id bus device 0 == 0xffff) [
      | true ↦ scan_devices left bus (device + 1) ds
      | false ↦ and_then (scan_device bus device ds) (scan_devices left bus (device + 1))
    ]

  -- The fuel bounds the depth of the bridges.
  unfoldable pub scan_bus : ℕ → ℕ → List Device → Scan
  unfolding scan_devices
  scan_bus zero bus ds = none
  scan_bus (suc fuel) bus ds = scan_devices (scan_bus fuel) 32 bus 0 ds

  -- The loop of `scan_all_bus`.
  unfoldable pub scan_buses : ℕ → ℕ → List Device → Scan
  unfolding scan_bus and_then read_vendor_id
  scan_buses zero function ds = some (success, ds)
  scan_buses (suc left) function ds = elim (read_vendor_id 0 0 function == 0xffff) [
    | true ↦ scan_buses left (function + 1) ds
    | false ↦ and_then (scan_bus (max_devices + 1) function ds) (scan_buses left (function + 1))
  ]

  unfoldable pub scan_all_bus : Scan
  unfolding scan_bus scan_buses is_single_function_device read_header_type
  scan_all_bus =
      if is_single_function_device (read_header_type 0 0 0)
      then scan_bus (max_devices + 1) 0 []
      else scan_buses 7 1 []

-- `find_xhc_device`: the first of Intel's, or else the last of all that match.
unfoldable pub find_from : Option Device → List Device → Option Device
unfolding match_interface
find_from xhc_device [] = xhc_device
find_from xhc_device (d ∷ ds) =
    if match_interface d.class_code 0x0c 0x03 0x30
    then (if d.vendor_id == 0x8086 then some d else find_from (some d) ds)
    else find_from xhc_device ds

unfoldable pub find_xhc_device : List Device → Option Device
unfolding find_from
find_xhc_device ds = find_from none ds
