-- ===== src/Usb/Init/Tests.antt =====
-- The initialization of a keyboard.
use os_jisaku.Prelude.{List, [], arith, false, get_or, none, refl, true, ℕ, ◌+◌, ◌∷◌, ◌≡◌, ◌≤◌, ◌⊎◌}
use os_jisaku.Usb.Descriptors.{
  configuration_descriptor, endpoint_descriptor, find_interface, found, make_ep_config,
  new_class_driver, next_descriptor, next_of, nothing, read_endpoints,
}
use os_jisaku.Usb.Descriptors.Ends.{IsMatch, has_lengths, next_of-ends}
use os_jisaku.Usb.Init.{UsbDevice, get_descriptor, initialize_phase_2, on_control_completed}
use os_jisaku.Usb.Init.Phases.{IsPhased, on_control_completed-IsPhased}
use os_jisaku.Usb.Transfer.{SetupData}

-- A configuration, an interface of one endpoint, a HID descriptor and the endpoint.
abbrev keyboard_bytes : List ℕ
keyboard_bytes =
    9 ∷ 2 ∷ 34 ∷ 0 ∷ 1 ∷ 1 ∷ 0 ∷ 160 ∷ 50 ∷ 9 ∷ 4 ∷ 0 ∷ 0 ∷ 1 ∷ 3 ∷ 1 ∷ 1 ∷ 0 ∷ 9 ∷ 33 ∷ 17 ∷ 1 ∷ 0
    ∷ 1 ∷ 34 ∷ 63 ∷ 0 ∷ 7 ∷ 5 ∷ 129 ∷ 3 ∷ 8 ∷ 0 ∷ 10 ∷ []

abbrev pub keyboard_buf : ℕ → ℕ
keyboard_buf p = get_or keyboard_bytes p 1

keyboard_lengths : has_lengths 34 keyboard_buf 34 0 ≡ true
unfolding has_lengths
keyboard_lengths = refl

next_of-ends_example :
    (next_of 34 endpoint_descriptor keyboard_buf 34 0 ≡ nothing)
    ⊎ (q : ℕ) × IsMatch endpoint_descriptor keyboard_buf 34 0 q
      × (next_of 34 endpoint_descriptor keyboard_buf 34 0 ≡ found q)
next_of-ends_example =
    next_of-ends 34 endpoint_descriptor keyboard_buf 34 0 keyboard_lengths (omega arith)
      (omega arith)

abbrev pub new_device : UsbDevice
new_device = record {
  is_initialized = false;
  initialize_phase = 2;
  num_configurations = 1;
  config_index = 0;
  ep_configs = [];
  class_drivers = λ i. none;
  waiters = (none, 0) ∷ [];
}

abbrev configuration_request : SetupData
configuration_request = get_descriptor configuration_descriptor 0 256

new_device-IsPhased : IsPhased new_device
new_device-IsPhased = record { bound = omega arith; last = refl }

on_control_completed-IsPhased_example :
    let next = (on_control_completed 40 configuration_request keyboard_buf 34 new_device).1 in
    IsPhased next
    × (new_device.initialize_phase ≤ next.initialize_phase)
    × (next.initialize_phase ≤ new_device.initialize_phase + 1)
on_control_completed-IsPhased_example =
    on_control_completed-IsPhased 40 configuration_request keyboard_buf 34 new_device
      new_device-IsPhased

-- The keyboard's one endpoint is found, and the third phase begins.
keyboard_found :
    (on_control_completed 40 configuration_request keyboard_buf 34 new_device).1.initialize_phase
    ≡ 3
unfolding on_control_completed get_descriptor initialize_phase_2 find_interface read_endpoints
    next_of next_descriptor new_class_driver make_ep_config
keyboard_found = refl
