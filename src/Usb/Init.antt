-- ===== src/Usb/Init.antt =====
-- kernel/usb/device.cpp: the initialization of a device, one completed control transfer at a time.
-- What a step asks of the transfers below and of the class drivers above is its reply.
pub mod Phases
pub mod Tests
use os_jisaku.Prelude.{
  Bool, List, Option, [], false, if◌then◌else◌, none, some, true, ℕ, ◌%◌, ◌&&◌, ◌*◌, ◌+◌, ◌==◌, ◌^◌,
  ◌∷◌,
}
use os_jisaku.Prelude.Bits.Fields.{set_field}
use os_jisaku.Usb.ArrayMap.{Table, get}
use os_jisaku.Usb.Codes.{ErrorCode, k_invalid_phase, k_no_waiter, k_not_implemented, k_success}
use os_jisaku.Usb.Contexts.{EndpointConfig, number}
use os_jisaku.Usb.Descriptors.{
  DriverKind, configuration_descriptor, device_descriptor, find_interface, found, is_descriptor,
  nothing, null_dereference, out_of_fuel, read_endpoints,
}
use os_jisaku.Usb.Transfer.{SetupData, eq_setup_data}

pub record UsbDevice : Type 0 where
  pub is_initialized : Bool
  pub initialize_phase : ℕ
  pub num_configurations : ℕ
  pub config_index : ℕ
  pub ep_configs : List EndpointConfig
  pub class_drivers : ℕ → Option DriverKind
  pub waiters : Table SetupData ℕ

-- An error code, a call of `ControlIn` or `ControlOut`, of a waiting class driver, or of `SetEndpoint` for
-- each endpoint. Two replies are not the source's: a null pointer was read, and the fuel was used up.
pub data Reply : Type 0 where
  answer : ErrorCode → Reply
  request_in : SetupData → Reply
  request_out : SetupData → Reply
  waiter_completed : ℕ → Reply
  endpoints_set : List EndpointConfig → Reply
  null_read : Reply
  no_fuel : Reply

-- `bmRequestType`: recipient, type, direction.
abbrev pub request_type_of : ℕ → ℕ → ℕ → ℕ
request_type_of recipient type direction =
    let bits = 5 ∷ 2 ∷ 1 ∷ [] in
    set_field bits 0 recipient (set_field bits 1 type (set_field bits 2 direction 0))

abbrev pub k_get_descriptor : ℕ
k_get_descriptor = 6

abbrev pub k_set_configuration : ℕ
k_set_configuration = 9

-- `GetDescriptor`, with a buffer of `len` bytes, and `SetConfiguration`.
unfoldable pub get_descriptor : ℕ → ℕ → ℕ → SetupData
get_descriptor desc_type desc_index len = record {
  request_type = request_type_of 0 0 1;
  request = k_get_descriptor;
  value = desc_type * 2 ^ 8 + desc_index;
  index = 0;
  length = len % 2 ^ 16;
}

unfoldable pub set_configuration : ℕ → SetupData
set_configuration config_value = record {
  request_type = request_type_of 0 0 0;
  request = k_set_configuration;
  value = config_value;
  index = 0;
  length = 0;
}

-- `buf_.size()`.
abbrev pub buf_size_of_device : ℕ
buf_size_of_device = 256

unfoldable pub start_initialize : UsbDevice → Reply × UsbDevice
start_initialize d = (
  request_in (get_descriptor device_descriptor 0 buf_size_of_device),
  record d { is_initialized = false; initialize_phase = 1 },
)

unfoldable pub initialize_phase_1 : (ℕ → ℕ) → UsbDevice → Reply × UsbDevice
initialize_phase_1 buf d = (
  request_in (get_descriptor configuration_descriptor 0 buf_size_of_device),
  record d { num_configurations = buf 17; config_index = 0; initialize_phase = 2 },
)

-- `class_drivers_` after the endpoints of an interface.
abbrev pub with_drivers :
    DriverKind → List EndpointConfig → (ℕ → Option DriverKind) → ℕ → Option DriverKind
with_drivers driver [] drivers = drivers
with_drivers driver (config ∷ configs) drivers =
    with_drivers driver configs (λ i. if i == number config.ep_id then some driver else drivers i)

unfoldable pub initialize_phase_2 : ℕ → (ℕ → ℕ) → ℕ → UsbDevice → Reply × UsbDevice
initialize_phase_2 fuel buf len d = elim (find_interface fuel buf len 0) [
  | out_of_fuel ↦ (no_fuel, d)
  | null_dereference ↦ (null_read, d)
  | nothing ↦ (answer k_success, d)
  | found (p, driver) ↦ elim (read_endpoints fuel buf len p (buf (p + 4))) [
    | out_of_fuel ↦ (no_fuel, d)
    | null_dereference ↦ (null_read, d)
    | nothing ↦ (null_read, d)
    | found configs ↦ (
      request_out (set_configuration (buf 5)),
      record d {
        ep_configs = configs;
        class_drivers = with_drivers driver configs d.class_drivers;
        initialize_phase = 3;
      },
    )
  ]
]

unfoldable pub initialize_phase_3 : UsbDevice → Reply × UsbDevice
initialize_phase_3 d =
    (endpoints_set d.ep_configs, record d { initialize_phase = 4; is_initialized = true })

-- `OnControlCompleted`, with the bytes of the buffer.
unfoldable pub on_control_completed : ℕ → SetupData → (ℕ → ℕ) → ℕ → UsbDevice → Reply × UsbDevice
on_control_completed fuel setup_data buf len d =
    if d.is_initialized
    then elim (get eq_setup_data d.waiters setup_data) [
      | some w ↦ (waiter_completed w, d)
      | none ↦ (answer k_no_waiter, d)
    ]
    else if d.initialize_phase == 1
    then (if (setup_data.request == k_get_descriptor) && is_descriptor device_descriptor buf 0
        then initialize_phase_1 buf d
        else (answer k_invalid_phase, d))
    else if d.initialize_phase == 2
    then (if (setup_data.request == k_get_descriptor)
          && is_descriptor configuration_descriptor buf 0
        then initialize_phase_2 fuel buf len d
        else (answer k_invalid_phase, d))
    else if d.initialize_phase == 3
    then (if setup_data.request == k_set_configuration
        then initialize_phase_3 d
        else (answer k_invalid_phase, d))
    else (answer k_not_implemented, d)

-- `OnInterruptCompleted`: the class driver of the endpoint, if any.
unfoldable pub on_interrupt_completed : ℕ → UsbDevice → Option DriverKind × ErrorCode
on_interrupt_completed ep_id d = elim (d.class_drivers (number ep_id)) [
  | some driver ↦ (some driver, k_success)
  | none ↦ (none, k_no_waiter)
]
