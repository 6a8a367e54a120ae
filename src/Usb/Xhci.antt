-- ===== src/Usb/Xhci.antt =====
-- kernel/usb/xhci/xhci.cpp: the configuration of the ports, one event at a time.
-- What the hardware answers is a parameter of each step, and what a step asks of the hardware and of
-- a device is a list of calls.
pub mod Invariant
pub mod Turns
pub mod Events
pub mod Process
pub mod Refusals
pub mod Initializing
pub mod Progress
pub mod Waiting
pub use os_jisaku.Usb.Ports.{
  ConfigPhase, k_not_connected, k_waiting_addressed, k_resetting_port, k_enabling_slot,
  k_addressing_device, k_initializing_device, k_configuring_endpoints, k_configured, Hardware, Call,
  reset_port_register, clear_port_reset_change, push_enable_slot, push_address_device,
  push_configure_endpoint, ring_doorbell, initialize_contexts, load_dcbaa, start_initialize,
  on_endpoints_configured, prepare_input_context, configure_contexts, Controller, start, Result,
  set_phase, call, max_slots,
}
unfoldable pub use os_jisaku.Usb.Ports.{same_phase, has_device, alloc_device}
use os_jisaku.Prelude.{
  Bool, List, Option, [], false, if◌then◌else◌, leb, ltb, map, none, not, some, suc, true, zero, ℕ,
  ◌&&◌, ◌++◌, ◌+◌, ◌==◌, ◌||◌, ◌∷◌,
}
use os_jisaku.Usb.Codes.{
  ErrorCode, is_failure, k_already_allocated, k_invalid_phase, k_invalid_slot_id, k_not_implemented,
  k_success, k_unknown_xhci_speed_id,
}
use os_jisaku.Usb.Contexts.{EndpointConfig, EndpointContext, endpoint_context, k_super_speed_plus}
use os_jisaku.Usb.Trb.{
  address_device_command, configure_endpoint_command, enable_slot_command, type_of,
}

abbrev pub determine_max_packet_size_for_control_pipe : ℕ → ℕ
determine_max_packet_size_for_control_pipe slot_speed =
    if slot_speed == 4 then 512 else if slot_speed == 3 then 64 else 8

unfoldable pub reset_port : Hardware → ℕ → Controller → Result
unfolding same_phase
reset_port hw p s =
    if not (hw.is_connected p)
    then (k_success, s)
    else if not (s.addressing_port == 0)
    then (k_success, set_phase p k_waiting_addressed s)
    else if not (same_phase (s.port_config_phase p) k_not_connected)
        && not (same_phase (s.port_config_phase p) k_waiting_addressed)
    then (k_invalid_phase, s)
    else (
      k_success,
      call (reset_port_register p ∷ [])
          (set_phase p k_resetting_port (record s { addressing_port = p })),
    )

unfoldable pub enable_slot : Hardware → ℕ → Controller → Result
enable_slot hw p s =
    if hw.is_enabled p && hw.is_port_reset_changed p
    then (
      k_success,
      call (ring_doorbell 0 ∷ push_enable_slot ∷ clear_port_reset_change p ∷ [])
          (set_phase p k_enabling_slot s),
    )
    else (k_success, s)

unfoldable pub address_device : Hardware → ℕ → ℕ → Controller → Result
unfolding has_device alloc_device
address_device hw port_id slot_id s =
    let allocated = (alloc_device slot_id s).1 in
    if not (has_device slot_id allocated) then (k_invalid_slot_id, allocated) else (
      k_success,
      call
          (ring_doorbell 0
            ∷ push_address_device slot_id
            ∷ load_dcbaa slot_id
            ∷ initialize_contexts slot_id port_id (hw.speed port_id)
                (determine_max_packet_size_for_control_pipe (hw.speed port_id))
            ∷ [])
          (set_phase port_id k_addressing_device allocated),
    )

unfoldable pub initialize_device : ℕ → ℕ → Controller → Result
unfolding has_device
initialize_device port_id slot_id s =
    if not (has_device slot_id s) then (k_invalid_slot_id, s) else (
      k_success,
      call (start_initialize slot_id ∷ []) (set_phase port_id k_initializing_device s),
    )

unfoldable pub complete_configuration : ℕ → ℕ → Controller → Result
unfolding has_device
complete_configuration port_id slot_id s =
    if not (has_device slot_id s)
    then (k_invalid_slot_id, s)
    else (k_success, set_phase port_id k_configured (call (on_endpoints_configured slot_id ∷ []) s))

unfoldable pub configure_endpoints : Hardware → ℕ → Controller → Result
configure_endpoints hw slot_id s =
    let prepared = call (prepare_input_context slot_id ∷ []) s in
    let port_id = hw.root_hub_port_num slot_id in
    let port_speed = hw.speed port_id in
    if port_speed == 0 || ltb k_super_speed_plus port_speed
    then (k_unknown_xhci_speed_id, prepared)
    else (
      k_success,
      call
          (ring_doorbell 0
            ∷ push_configure_endpoint slot_id
            ∷ configure_contexts slot_id
                (map (endpoint_context port_speed) (hw.endpoint_configs slot_id))
            ∷ [])
          (set_phase port_id k_configuring_endpoints prepared),
    )

unfoldable pub configure_port : Hardware → ℕ → Controller → Result
unfolding reset_port same_phase
configure_port hw p s =
    if same_phase (s.port_config_phase p) k_not_connected then reset_port hw p s else (k_success, s)

-- `OnEvent` of a port's status change.
unfoldable pub on_port_status_change : Hardware → ℕ → Controller → Result
unfolding reset_port enable_slot
on_port_status_change hw port_id s = elim (s.port_config_phase port_id) [
  | k_not_connected ↦ reset_port hw port_id s
  | k_resetting_port ↦ enable_slot hw port_id s
  | k_waiting_addressed ↦ (k_invalid_phase, s)
  | k_enabling_slot ↦ (k_invalid_phase, s)
  | k_addressing_device ↦ (k_invalid_phase, s)
  | k_initializing_device ↦ (k_invalid_phase, s)
  | k_configuring_endpoints ↦ (k_invalid_phase, s)
  | k_configured ↦ (k_invalid_phase, s)
]

-- `OnEvent` of a transfer. The device's `OnTransferEventReceived` gives `err`, and after it the device
-- is initialized or not.
unfoldable pub on_transfer : Hardware → ℕ → ErrorCode → Bool → Controller → Result
unfolding has_device configure_endpoints same_phase
on_transfer hw slot_id err is_initialized s =
    if not (has_device slot_id s)
    then (k_invalid_slot_id, s)
    else if is_failure err
    then (err, s)
    else if is_initialized
        && same_phase (s.port_config_phase (hw.root_hub_port_num slot_id)) k_initializing_device
    then configure_endpoints hw slot_id s
    else (k_success, s)

-- The first port that waits, of `left` ports from `i` on.
unfoldable pub first_waiting : ℕ → ℕ → Controller → Option ℕ
unfolding same_phase
first_waiting zero i s = none
first_waiting (suc left) i s =
    let rest = first_waiting left (i + 1) s in
    if same_phase (s.port_config_phase i) k_waiting_addressed then some i else rest

-- The loop that lets a waiting port have its turn.
unfoldable pub next_port : Hardware → Controller → Result
unfolding first_waiting reset_port
next_port hw s = elim (first_waiting 256 0 s) [ some i ↦ reset_port hw i s | none ↦ (k_success, s) ]

unfoldable pub on_device_addressed : Hardware → ℕ → Controller → Result
unfolding has_device next_port initialize_device same_phase
on_device_addressed hw slot_id s =
    let port_id = hw.root_hub_port_num slot_id in
    let next = next_port hw (record s { addressing_port = 0 }) in
    if not (has_device slot_id s)
    then (k_invalid_slot_id, s)
    else if not (port_id == s.addressing_port)
    then (k_invalid_phase, s)
    else if not (same_phase (s.port_config_phase port_id) k_addressing_device)
    then (k_invalid_phase, s)
    else if is_failure next.0
    then next
    else initialize_device port_id slot_id next.1

unfoldable pub on_endpoints_done : Hardware → ℕ → Controller → Result
unfolding has_device complete_configuration same_phase
on_endpoints_done hw slot_id s =
    let port_id = hw.root_hub_port_num slot_id in
    if not (has_device slot_id s)
    then (k_invalid_slot_id, s)
    else if not (same_phase (s.port_config_phase port_id) k_configuring_endpoints)
    then (k_invalid_phase, s)
    else complete_configuration port_id slot_id s

-- `OnEvent` of a command's completion.
unfoldable pub on_command_completion : Hardware → ℕ → ℕ → Controller → Result
unfolding address_device on_device_addressed on_endpoints_done same_phase
on_command_completion hw issuer_type slot_id s =
    if issuer_type == type_of enable_slot_command
    then (if not (same_phase (s.port_config_phase s.addressing_port) k_enabling_slot)
        then (k_invalid_phase, s)
        else address_device hw s.addressing_port slot_id s)
    else if issuer_type == type_of address_device_command
    then on_device_addressed hw slot_id s
    else if issuer_type == type_of configure_endpoint_command
    then on_endpoints_done hw slot_id s
    else (k_invalid_phase, s)

-- What changes the state: the kernel's call for a port, and the events of the event ring.
pub data Event : Type 0 where
  configure : ℕ → Event
  port_status_change : ℕ → Event
  transfer : ℕ → ErrorCode → Bool → Event
  command_completion : ℕ → ℕ → Event
  unknown : Event

unfoldable pub step : Hardware → Event → Controller → Result
unfolding configure_port on_port_status_change on_transfer on_command_completion
step hw (configure p) s = configure_port hw p s
step hw (port_status_change p) s = on_port_status_change hw p s
step hw (transfer slot_id err is_initialized) s = on_transfer hw slot_id err is_initialized s
step hw (command_completion issuer_type slot_id) s = on_command_completion hw issuer_type slot_id s
step hw unknown s = (k_not_implemented, s)
