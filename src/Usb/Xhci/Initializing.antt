-- ===== src/Usb/Xhci/Initializing.antt =====
-- kernel/usb/xhci/xhci.cpp and kernel/usb/device.cpp: the transfer events while a device is initialized.
use os_jisaku.Prelude.{List, [], false, refl, true, ℕ, ◌+◌, ◌∷◌, ◌≡◌}
use os_jisaku.Usb.Codes.{k_success}
use os_jisaku.Usb.Descriptors.{
  DriverKind, configuration_descriptor, device_descriptor, find_interface, found, is_descriptor,
  read_endpoints,
}
use os_jisaku.Usb.Init.{
  UsbDevice, buf_size_of_device, get_descriptor, initialize_phase_1, initialize_phase_2,
  initialize_phase_3, on_control_completed, set_configuration, start_initialize,
}
use os_jisaku.Usb.Transfer.{SetupData}
use os_jisaku.Usb.Contexts.{EndpointConfig}
use os_jisaku.Usb.Xhci.{Event, transfer}

-- The transfer events of the control transfers by which a device is initialized. A transfer is given by
-- its setup data and by the bytes that it brought; `IsInitialized` after it is what
-- `on_control_completed` leaves, and what `on_control_completed` requests is taken to succeed.
abbrev pub Completion : Type 0
Completion = SetupData × (ℕ → ℕ) × ℕ

abbrev pub transfers : ℕ → ℕ → UsbDevice → List Completion → List Event
transfers slot_id fuel d [] = []
transfers slot_id fuel d ((setup_data, buf, len) ∷ cs) =
    let next = (on_control_completed fuel setup_data buf len d).1 in
    transfer slot_id k_success next.is_initialized ∷ transfers slot_id fuel next cs

-- The transfers that the phases of a device ask for, with the bytes of its two descriptors.
abbrev pub completions : (ℕ → ℕ) → (ℕ → ℕ) → ℕ → List Completion
completions device_buf config_buf len =
    (get_descriptor device_descriptor 0 buf_size_of_device, device_buf, 18)
    ∷ (get_descriptor configuration_descriptor 0 buf_size_of_device, config_buf, len)
    ∷ (set_configuration (config_buf 5), config_buf, 0)
    ∷ []

-- The descriptors of a device that the driver can use: the bytes are a device descriptor and a
-- configuration descriptor, and in the latter an interface with a class driver and its endpoints are
-- found.
pub record IsUsable (fuel : ℕ) (device_buf config_buf : ℕ → ℕ) (len : ℕ) : Type 0 where
  pub is_device : is_descriptor device_descriptor device_buf 0 ≡ true
  pub is_configuration : is_descriptor configuration_descriptor config_buf 0 ≡ true
  pub interface_at : ℕ
  pub driver : DriverKind
  pub has_interface : find_interface fuel config_buf len 0 ≡ found (interface_at, driver)
  pub endpoints : List EndpointConfig
  pub has_endpoints :
      read_endpoints fuel config_buf len interface_at (config_buf (interface_at + 4))
      ≡ found endpoints

-- The device after the transfer of a descriptor.
abbrev after_descriptor : ℕ → ℕ → (ℕ → ℕ) → ℕ → UsbDevice → UsbDevice
after_descriptor fuel desc_type buf len d =
    let setup_data = get_descriptor desc_type 0 buf_size_of_device in
    (on_control_completed fuel setup_data buf len d).1

-- The first, the second and the third transfer of a device, by its phase.
first_transfer :
    (fuel : ℕ) (buf : ℕ → ℕ) (len : ℕ) (d : UsbDevice)
    → d.is_initialized ≡ false
    → d.initialize_phase ≡ 1
    → is_descriptor device_descriptor buf 0 ≡ true
    → let next = after_descriptor fuel device_descriptor buf len d in
      (next.is_initialized ≡ false) × (next.initialize_phase ≡ 2)
unfolding on_control_completed initialize_phase_1 get_descriptor
first_transfer fuel buf len d waits phase ok =
    rw (after_descriptor, on_control_completed, waits, phase, ok) (refl, refl)

second_transfer :
    (fuel : ℕ) (device_buf buf : ℕ → ℕ) (len : ℕ) (d : UsbDevice)
    → d.is_initialized ≡ false
    → d.initialize_phase ≡ 2
    → IsUsable fuel device_buf buf len
    → let next = after_descriptor fuel configuration_descriptor buf len d in
      (next.is_initialized ≡ false) × (next.initialize_phase ≡ 3)
unfolding on_control_completed initialize_phase_2 get_descriptor
second_transfer fuel device_buf buf len d waits phase u =
    rw
      (
        after_descriptor, on_control_completed, waits, phase, u.is_configuration,
        initialize_phase_2, u.has_interface, u.has_endpoints,
      )
      (waits, refl)

third_transfer :
    (fuel config : ℕ) (buf : ℕ → ℕ) (d : UsbDevice)
    → d.is_initialized ≡ false
    → d.initialize_phase ≡ 3
    → (on_control_completed fuel (set_configuration config) buf 0 d).1.is_initialized ≡ true
unfolding on_control_completed initialize_phase_3 set_configuration
third_transfer fuel config buf d waits phase = rw (waits, phase) refl

-- Of the three transfers the last one alone leaves the device initialized.
pub transfers-completions :
    (slot_id fuel : ℕ) (d : UsbDevice) (device_buf config_buf : ℕ → ℕ) (len : ℕ)
    → d.is_initialized ≡ false
    → d.initialize_phase ≡ 1
    → IsUsable fuel device_buf config_buf len
    → transfers slot_id fuel d (completions device_buf config_buf len) ≡ (
        transfer slot_id k_success false
        ∷ transfer slot_id k_success false
        ∷ transfer slot_id k_success true
        ∷ [])
transfers-completions slot_id fuel d device_buf config_buf len waits phase u =
    let d1 = after_descriptor fuel device_descriptor device_buf 18 d in
    let d2 = after_descriptor fuel configuration_descriptor config_buf len d1 in
    let (w1, p1) = first_transfer fuel device_buf 18 d waits phase u.is_device in
    let (w2, p2) = second_transfer fuel device_buf config_buf len d1 w1 p1 u in
    rw (w1, w2, third_transfer fuel (config_buf 5) config_buf d2 w2 p2) refl

pub started_device :
    (d : UsbDevice)
    → ((start_initialize d).1.is_initialized ≡ false)
      × ((start_initialize d).1.initialize_phase ≡ 1)
unfolding start_initialize
started_device d = (refl, refl)
