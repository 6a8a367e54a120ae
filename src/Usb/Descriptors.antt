-- ===== src/Usb/Descriptors.antt =====
-- kernel/usb/descriptor.hpp and the reader of kernel/usb/device.cpp: descriptors in a buffer of bytes, one
-- after the other, each with its length and its type first. A descriptor is the index of its first byte.
pub mod Ends
use os_jisaku.Prelude.{
  Bool, List, Option, [], if◌then◌else◌, ltb, none, some, suc, zero, ℕ, ◌%◌, ◌&&◌, ◌*◌, ◌+◌, ◌/◌,
  ◌==◌, ◌∷◌,
}
use os_jisaku.Usb.Contexts.{
  EndpointConfig, EndpointType, endpoint_id, k_bulk, k_control, k_interrupt, k_isochronous,
}

-- `kType` of the descriptors.
abbrev pub device_descriptor : ℕ
device_descriptor = 1

abbrev pub configuration_descriptor : ℕ
configuration_descriptor = 2

abbrev pub interface_descriptor : ℕ
interface_descriptor = 4

abbrev pub endpoint_descriptor : ℕ
endpoint_descriptor = 5

-- Whether `DescriptorDynamicCast` succeeds.
abbrev pub is_descriptor : ℕ → (ℕ → ℕ) → ℕ → Bool
is_descriptor type buf p = buf (p + 1) == type

-- `Next()`, from the descriptor at `p`.
unfoldable pub next_descriptor : (ℕ → ℕ) → ℕ → ℕ → Option ℕ
next_descriptor buf len p = if ltb (p + buf p) len then some (p + buf p) else none

-- What a loop over descriptors comes to.
pub data Search (A : Type 0) : Type 0 where
  out_of_fuel : Search A
  null_dereference : Search A
  nothing : Search A
  found : A → Search A

-- `Next<T>()`.
unfoldable pub next_of : ℕ → ℕ → (ℕ → ℕ) → ℕ → ℕ → Search ℕ
next_of zero type buf len p = out_of_fuel
next_of (suc fuel) type buf len p = elim (next_descriptor buf len p) [
  | none ↦ nothing
  | some q ↦
      let rest = next_of fuel type buf len q in if is_descriptor type buf q then found q else rest
]

-- `MakeEPConfig`.
abbrev pub endpoint_type : ℕ → EndpointType
endpoint_type n =
    if n == 0
    then k_control
    else if n == 1
    then k_isochronous
    else if n == 2
    then k_bulk
    else k_interrupt

unfoldable pub make_ep_config : (ℕ → ℕ) → ℕ → EndpointConfig
make_ep_config buf p = record {
  ep_id = endpoint_id (buf (p + 2) % 16) (buf (p + 2) / 128 % 2 == 1);
  ep_type = endpoint_type (buf (p + 3) % 4);
  max_packet_size = buf (p + 4) + 256 * buf (p + 5);
  interval = buf (p + 6);
}

-- `NewClassDriver`, for the interface at `p`.
pub data DriverKind : Type 0 where
  keyboard mouse : DriverKind

unfoldable pub new_class_driver : (ℕ → ℕ) → ℕ → Option DriverKind
new_class_driver buf p =
    if (buf (p + 5) == 3) && (buf (p + 6) == 1)
    then (if buf (p + 7) == 1 then some keyboard else if buf (p + 7) == 2 then some mouse else none)
    else none

-- The outer loop of `InitializePhase2`: the first interface with a driver.
unfoldable pub find_interface : ℕ → (ℕ → ℕ) → ℕ → ℕ → Search (ℕ × DriverKind)
find_interface zero buf len p = out_of_fuel
find_interface (suc fuel) buf len p = elim (next_of (suc fuel) interface_descriptor buf len p) [
  | out_of_fuel ↦ out_of_fuel
  | null_dereference ↦ null_dereference
  | nothing ↦ nothing
  | found q ↦
      let rest = find_interface fuel buf len q in
      elim (new_class_driver buf q) [ some driver ↦ found (q, driver) | none ↦ rest ]
]

-- The inner loop, which reads `left` more endpoints. Past the last descriptor it casts a null pointer.
unfoldable pub read_endpoints : ℕ → (ℕ → ℕ) → ℕ → ℕ → ℕ → Search (List EndpointConfig)
read_endpoints fuel buf len p zero = found []
read_endpoints zero buf len p (suc left) = out_of_fuel
read_endpoints (suc fuel) buf len p (suc left) = elim (next_descriptor buf len p) [
  | none ↦ null_dereference
  | some q ↦
      let after_endpoint = read_endpoints fuel buf len q left in
      let after_other = read_endpoints fuel buf len q (suc left) in
      if is_descriptor endpoint_descriptor buf q
      then elim after_endpoint [
        | out_of_fuel ↦ out_of_fuel
        | null_dereference ↦ null_dereference
        | nothing ↦ nothing
        | found configs ↦ found (make_ep_config buf q ∷ configs)
      ]
      else after_other
]
