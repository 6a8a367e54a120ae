-- ===== src/Usb/Xhci/Progress.antt =====
-- kernel/usb/xhci/xhci.cpp: the way of a port to its configuration.
use os_jisaku.Prelude.{
  List, [], ap, arith, false, ltb, refl, sym, true, ℕ, ◌++◌, ◌<◌, ◌==◌, ◌||◌, ◌∙◌, ◌∷◌, ◌≡◌, ◌≤◌,
}
use os_jisaku.Usb.Codes.{k_success}
use os_jisaku.Usb.Init.{UsbDevice, start_initialize}
use os_jisaku.Usb.Contexts.{k_super_speed_plus}
use os_jisaku.Usb.Trb.{
  address_device_command, configure_endpoint_command, enable_slot_command, type_of,
}
use os_jisaku.Usb.Xhci.{
  ConfigPhase, Controller, Event, Hardware, address_device, alloc_device, call, command_completion,
  complete_configuration, configure, configure_endpoints, configure_port,
  determine_max_packet_size_for_control_pipe, enable_slot, has_device, initialize_contexts,
  k_addressing_device, k_configured, k_configuring_endpoints, k_enabling_slot,
  k_initializing_device, k_not_connected, k_resetting_port, load_dcbaa, max_slots, next_port,
  on_command_completion, on_endpoints_done, on_port_status_change, on_transfer, port_status_change,
  prepare_input_context, push_address_device, reset_port, ring_doorbell, set_phase, step, transfer,
}
use os_jisaku.Usb.Xhci.Initializing.{
  IsUsable, completions, started_device, transfers, transfers-completions,
}
use os_jisaku.Usb.Xhci.Invariant.{alloc_device_keeps}
use os_jisaku.Usb.Xhci.Turns.{has_device-next_port, on_device_addressed-addressed}

-- The events of one port, in the order of its phases, with one answer of the hardware.
abbrev pub way : ℕ → ℕ → List Event → List Event
way p slot_id initialization =
    configure p
    ∷ port_status_change p
    ∷ command_completion (type_of enable_slot_command) slot_id
    ∷ command_completion (type_of address_device_command) slot_id
    ∷ (initialization ++ (command_completion (type_of configure_endpoint_command) slot_id ∷ []))

abbrev pub run : Hardware → List Event → Controller → Controller
run hw [] s = s
run hw (e ∷ es) s = run hw es (step hw e s).1

-- What the hardware answers for a port that works, with a device in `slot_id`.
pub record IsReady (hw : Hardware) (p slot_id : ℕ) : Type 0 where
  pub connected : hw.is_connected p ≡ true
  pub enabled : hw.is_enabled p ≡ true
  pub reset_changed : hw.is_port_reset_changed p ≡ true
  pub slot_of_port : hw.root_hub_port_num slot_id ≡ p
  pub speed_known : 0 < hw.speed p
  pub speed_bound : hw.speed p ≤ k_super_speed_plus
  pub slot_bound : slot_id ≤ max_slots

-- A phase just set is read back.
set_phase_self :
    (p : ℕ) (phase : ConfigPhase) (s : Controller)
    → (set_phase p phase s).port_config_phase p ≡ phase
set_phase_self p phase s = ground arith

-- A reset of a port that has not started takes the free turn.
reset_step :
    (hw : Hardware) (p slot_id : ℕ) (s : Controller)
    → IsReady hw p slot_id
    → s.addressing_port ≡ 0
    → s.port_config_phase p ≡ k_not_connected
    → let t = (step hw (configure p) s).1 in
      (t.addressing_port ≡ p) × (t.port_config_phase p ≡ k_resetting_port)
unfolding step configure_port reset_port
reset_step hw p slot_id s h a e = rw (e, h.connected, a) (refl, set_phase_self p k_resetting_port s)

enable_step :
    (hw : Hardware) (p slot_id : ℕ) (s : Controller)
    → IsReady hw p slot_id
    → s.addressing_port ≡ p
    → s.port_config_phase p ≡ k_resetting_port
    → let t = (step hw (port_status_change p) s).1 in
      (t.addressing_port ≡ p) × (t.port_config_phase p ≡ k_enabling_slot)
unfolding step on_port_status_change enable_slot
enable_step hw p slot_id s h a e =
    rw (e, on_port_status_change, h.enabled, h.reset_changed)
      (a, set_phase_self p k_enabling_slot s)

-- The device is there after the address command of an enabled slot.
has_device-alloc_device :
    (slot_id : ℕ) (s : Controller)
    → slot_id ≤ max_slots
    → has_device slot_id (alloc_device slot_id s).1 ≡ true
unfolding has_device alloc_device
has_device-alloc_device slot_id s h = ground arith

has_device-devices :
    (slot_id : ℕ) (s t : Controller)
    → s.devices ≡ t.devices
    → has_device slot_id s ≡ has_device slot_id t
unfolding has_device
has_device-devices slot_id s t e = rw e

address_device-addressed :
    (hw : Hardware) (p slot_id : ℕ) (s : Controller)
    → slot_id ≤ max_slots
    → s.addressing_port ≡ p
    → let t = (address_device hw p slot_id s).1 in
      (t.addressing_port ≡ p)
      × (t.port_config_phase p ≡ k_addressing_device)
      × (has_device slot_id t ≡ true)
unfolding address_device
address_device-addressed hw p slot_id s h a =
    let d = has_device-alloc_device slot_id s h in
    let t = (alloc_device slot_id s).1 in
    let addressed =
      call
        (ring_doorbell 0
          ∷ push_address_device slot_id
          ∷ load_dcbaa slot_id
          ∷ initialize_contexts slot_id p (hw.speed p)
              (determine_max_packet_size_for_control_pipe (hw.speed p))
          ∷ [])
        (set_phase p k_addressing_device t) in
    rw d (
      ap Controller.addressing_port (alloc_device_keeps slot_id s) ∙ a,
      set_phase_self p k_addressing_device t,
      has_device-devices slot_id addressed t refl ∙ d,
    )

enabled_slot_step :
    (hw : Hardware) (slot_id : ℕ) (s : Controller)
    → s.port_config_phase s.addressing_port ≡ k_enabling_slot
    → step hw (command_completion (type_of enable_slot_command) slot_id) s
      ≡ address_device hw s.addressing_port slot_id s
unfolding step on_command_completion
enabled_slot_step hw slot_id s e = rw e

address_step :
    (hw : Hardware) (p slot_id : ℕ) (s : Controller)
    → IsReady hw p slot_id
    → s.addressing_port ≡ p
    → s.port_config_phase p ≡ k_enabling_slot
    → let t = (step hw (command_completion (type_of enable_slot_command) slot_id) s).1 in
      (t.addressing_port ≡ p)
      × (t.port_config_phase p ≡ k_addressing_device)
      × (has_device slot_id t ≡ true)
address_step hw p slot_id s h a e =
    rw (enabled_slot_step hw slot_id s (rw a e), ap (λ q. address_device hw q slot_id s) a)
      (address_device-addressed hw p slot_id s h.slot_bound a)

addressed_step :
    (hw : Hardware) (p slot_id : ℕ) (s : Controller)
    → IsReady hw p slot_id
    → s.addressing_port ≡ p
    → s.port_config_phase p ≡ k_addressing_device
    → has_device slot_id s ≡ true
    → let t = (step hw (command_completion (type_of address_device_command) slot_id) s).1 in
      (t.port_config_phase p ≡ k_initializing_device) × (has_device slot_id t ≡ true)
unfolding step on_command_completion has_device
addressed_step hw p slot_id s h a e d =
    let released = record s { addressing_port = 0 } in
    rw (on_device_addressed-addressed hw slot_id s d (h.slot_of_port ∙ sym a) (rw a e), a)
      (
        set_phase_self p k_initializing_device (next_port hw released).1,
        has_device-next_port hw slot_id released refl ∙ d,
      )

initialized_step :
    (hw : Hardware) (p slot_id : ℕ) (s : Controller)
    → IsReady hw p slot_id
    → s.port_config_phase p ≡ k_initializing_device
    → has_device slot_id s ≡ true
    → let t = (step hw (transfer slot_id k_success true) s).1 in
      (t.port_config_phase p ≡ k_configuring_endpoints) × (has_device slot_id t ≡ true)
unfolding step on_transfer configure_endpoints has_device
initialized_step hw p slot_id s h e d =
    let speed_fits : ((hw.speed p == 0) || ltb k_super_speed_plus (hw.speed p)) ≡ false =
      ground (arith, h.speed_known, h.speed_bound) in
    rw (d, h.slot_of_port, e, speed_fits)
      (set_phase_self p k_configuring_endpoints (call (prepare_input_context slot_id ∷ []) s), d)

configured_step :
    (hw : Hardware) (p slot_id : ℕ) (s : Controller)
    → IsReady hw p slot_id
    → s.port_config_phase p ≡ k_configuring_endpoints
    → has_device slot_id s ≡ true
    → let t = (step hw (command_completion (type_of configure_endpoint_command) slot_id) s).1 in
      (t.port_config_phase p ≡ k_configured) × (has_device slot_id t ≡ true)
unfolding step on_command_completion on_endpoints_done complete_configuration has_device
configured_step hw p slot_id s h e d =
    rw (d, h.slot_of_port, e) (set_phase_self p k_configured s, d)

-- A transfer that leaves the device uninitialized changes nothing here.
waiting_step :
    (hw : Hardware) (slot_id : ℕ) (s : Controller)
    → has_device slot_id s ≡ true
    → (step hw (transfer slot_id k_success false) s).1 ≡ s
unfolding step on_transfer
waiting_step hw slot_id s d = rw d refl

three_transfers :
    (hw : Hardware) (slot_id : ℕ) (rest : List Event) (s : Controller)
    → has_device slot_id s ≡ true
    → run hw
        (transfer slot_id k_success false
          ∷ transfer slot_id k_success false
          ∷ transfer slot_id k_success true
          ∷ rest)
        s
      ≡ run hw rest (step hw (transfer slot_id k_success true) s).1
three_transfers hw slot_id rest s d =
    let stays = waiting_step hw slot_id s d in
    let last = transfer slot_id k_success true in
    ap (λ t. run hw (transfer slot_id k_success false ∷ last ∷ rest) t) stays
    ∙ ap (λ t. run hw (last ∷ rest) t) stays

-- In every state where no port has the turn: a port that has not started, connected and in working
-- order, with a device in a slot of at most 8 whose descriptors the driver can use, comes from its first
-- phase to its last one by its own events, whatever the phases of the other ports are: the call for the
-- port, its status change, the completions of the two commands, a transfer event for each of the three
-- control transfers of the device's initialization, and the completion of the last command. What
-- the device asks of its control transfers is taken to succeed.
pub way-configured :
    (hw : Hardware) (p slot_id : ℕ) (s : Controller) (fuel : ℕ) (d : UsbDevice)
    (device_buf config_buf : ℕ → ℕ) (len : ℕ)
    → IsReady hw p slot_id
    → IsUsable fuel device_buf config_buf len
    → s.addressing_port ≡ 0
    → s.port_config_phase p ≡ k_not_connected
    → (run hw
          (way p slot_id
            (transfers slot_id fuel (start_initialize d).1 (completions device_buf config_buf len)))
          s).port_config_phase
        p
      ≡ k_configured
way-configured hw p slot_id s fuel d device_buf config_buf len h u a e =
    let s1 = (step hw (configure p) s).1 in
    let s2 = (step hw (port_status_change p) s1).1 in
    let s3 = (step hw (command_completion (type_of enable_slot_command) slot_id) s2).1 in
    let s4 = (step hw (command_completion (type_of address_device_command) slot_id) s3).1 in
    let s5 = (step hw (transfer slot_id k_success true) s4).1 in
    let (a1, e1) = reset_step hw p slot_id s h a e in
    let (a2, e2) = enable_step hw p slot_id s1 h a1 e1 in
    let (a3, e3, d3) = address_step hw p slot_id s2 h a2 e2 in
    let (e4, d4) = addressed_step hw p slot_id s3 h a3 e3 d3 in
    let (e5, d5) = initialized_step hw p slot_id s4 h e4 d4 in
    let last = command_completion (type_of configure_endpoint_command) slot_id ∷ [] in
    let (waits, phase) = started_device d in
    ap (λ events. (run hw (way p slot_id events) s).port_config_phase p)
      (transfers-completions slot_id fuel (start_initialize d).1 device_buf config_buf len waits
        phase u)
    ∙ (ap (λ t. t.port_config_phase p) (three_transfers hw slot_id last s4 d4)
        ∙ (configured_step hw p slot_id s5 h e5 d5).0)
