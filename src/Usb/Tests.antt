-- ===== src/Usb/Tests.antt =====
-- Runs of the USB driver's parts.
use os_jisaku.Prelude.{
  ==→≡, Bool-cases, List, [], arith, if◌then◌else◌, inl, inr, ltb, map, none, not, refl, some, true,
  ℕ, ◌&&◌, ◌+◌, ◌<◌, ◌==◌, ◌^◌, ◌∷◌, ◌≡◌, ◌≤◌, ◌⊎◌,
}
use os_jisaku.Prelude.Bits.Fields.{get_field, set_field}
use os_jisaku.Usb.Codes.{ErrorCode, is_failure, k_unknown_xhci_speed_id}
use os_jisaku.Usb.Pool.{alloc_mem, k_memory_pool_size}
use os_jisaku.Usb.Pool.Placement.{IsPlaced, alloc_mem-IsPlaced}
use os_jisaku.Usb.Ring.{Ring, initialize}
use os_jisaku.Usb.Ring.Cycle.{IsPushable, initialize-IsCycled}
use os_jisaku.Usb.Ring.Links.{IsAddress}
use os_jisaku.Usb.Ring.Reader.{IsReader, first_reader, pending}
use os_jisaku.Usb.Ring.Reader.Refinement.{
  IsFitting, Op, consume, payload, produce, run_queue, run_ring, run_ring-run_queue,
}
use os_jisaku.Usb.Trb.{
  Trb, address_device_command, control_field, cycle_bit, new, no_op_command, trb_type, type_of,
}
use os_jisaku.Usb.Trb.Casts.{layouts_agree}
use os_jisaku.Usb.Xhci.{
  Controller, Hardware, call, transfer, prepare_input_context, command_completion, configure,
  configure_port, has_device, k_addressing_device, k_configured, k_initializing_device,
  k_not_connected, k_resetting_port, k_waiting_addressed, on_port_status_change, port_status_change,
  reset_port, start, step,
}
use os_jisaku.Usb.Xhci.Events.{Reachable-one_port}
use os_jisaku.Usb.Xhci.Invariant.{Reachable, after, initially, is_addressing}
use os_jisaku.Usb.Xhci.Initializing.{IsUsable, completions, transfers}
use os_jisaku.Usb.Xhci.Progress.{IsReady, run, way, way-configured}
use os_jisaku.Usb.Init.{start_initialize}
use os_jisaku.Usb.Init.Tests.{keyboard_buf, new_device}
use os_jisaku.Usb.Descriptors.{
  find_interface, keyboard, make_ep_config, new_class_driver, next_descriptor, next_of,
  read_endpoints,
}
use os_jisaku.Usb.Xhci.Refusals.{step_error_unchanged}
use os_jisaku.Usb.Xhci.Waiting.{turn_passed}

-- Hardware with two ports that work, and a device in slot 1 on port 1.
abbrev hw : Hardware
hw = record {
  is_connected = λ p. ltb p 3;
  is_enabled = λ p. ltb p 3;
  is_port_reset_changed = λ p. ltb p 3;
  speed = λ p. 3;
  root_hub_port_num = λ slot_id. slot_id;
  endpoint_configs = λ slot_id. [];
}

abbrev first_step : Controller
first_step = (step hw (configure 1) start).1

abbrev second_step : Controller
second_step = (step hw (configure 2) first_step).1

two_configured : Reachable second_step
two_configured =
    after (after initially hw (configure 1) (omega arith)) hw (configure 2) (omega arith)

Reachable-one_port_example :
    is_addressing (second_step.port_config_phase 2)
    ≡ ((2 == second_step.addressing_port) && not (second_step.addressing_port == 0))
Reachable-one_port_example = Reachable-one_port second_step two_configured 2

-- The second port waits.
second_waits : second_step.port_config_phase 2 ≡ k_waiting_addressed
unfolding step configure_port reset_port
second_waits = refl

refused : is_failure (step hw (port_status_change 2) second_step).0 ≡ true
unfolding step configure_port reset_port on_port_status_change
refused = refl

step_error_unchanged_example :
    ((step hw (port_status_change 2) second_step).1 ≡ second_step)
    ⊎ ((slot_id : ℕ) × (err : ErrorCode) × (port_status_change 2 ≡ transfer slot_id err true)
        × (step hw (port_status_change 2) second_step
            ≡ (k_unknown_xhci_speed_id, call (prepare_input_context slot_id ∷ []) second_step)))
step_error_unchanged_example = step_error_unchanged hw (port_status_change 2) second_step refused

ready : IsReady hw 1 1
ready = record {
  connected = refl;
  enabled = refl;
  reset_changed = refl;
  slot_of_port = refl;
  speed_known = omega arith;
  speed_bound = omega arith;
  slot_bound = omega arith;
}

-- The first bytes of a device descriptor.
abbrev device_bytes : ℕ → ℕ
device_bytes p = if p == 0 then 18 else 1

usable : IsUsable 34 device_bytes keyboard_buf 34
unfolding find_interface read_endpoints next_of next_descriptor new_class_driver make_ep_config
usable = record {
  is_device = refl;
  is_configuration = refl;
  interface_at = 9;
  driver = keyboard;
  has_interface = refl;
  endpoints = make_ep_config keyboard_buf 27 ∷ [];
  has_endpoints = refl;
}

way-configured_example :
    (run hw
        (way 1 1 (
          transfers 1 34
            (start_initialize new_device).1
            (completions device_bytes keyboard_buf 34)))
        start).port_config_phase
      1
    ≡ k_configured
way-configured_example =
    way-configured hw 1 1 start 34 new_device device_bytes keyboard_buf 34 ready usable refl refl

-- Port 1 has its address, and port 2 waits.
abbrev addressed : Controller
addressed = record start {
  port_config_phase = λ p.
      if p == 1
      then k_addressing_device
      else if p == 2
      then k_waiting_addressed
      else k_not_connected;
  addressing_port = 1;
  devices = λ slot_id. slot_id == 1;
}

waiting_connected :
    (i : ℕ) → addressed.port_config_phase i ≡ k_waiting_addressed → hw.is_connected i ≡ true
waiting_connected i w = elim (Bool-cases (i == 2)) [
  | inl t ↦ rw (==→≡ i 2 t)
  | inr f ↦ ground arith
]

device_there : has_device 1 addressed ≡ true
unfolding has_device
device_there = refl

turn_passed_example :
    let t = (step hw (command_completion (type_of address_device_command) 1) addressed).1 in
    (addressed.port_config_phase t.addressing_port ≡ k_waiting_addressed)
    × (t.port_config_phase t.addressing_port ≡ k_resetting_port)
    × (t.port_config_phase addressed.addressing_port ≡ k_initializing_device)
turn_passed_example =
    turn_passed hw 1 2 addressed device_there refl refl (omega arith) refl waiting_connected

-- Blocks of three kinds.
abbrev block : Trb
block = new no_op_command

layouts_agree_example :
    (control_field no_op_command 2 block ≡ trb_type block)
    × (control_field no_op_command 0 block ≡ cycle_bit block)
layouts_agree_example = layouts_agree no_op_command block

-- A ring of three places, turned round once.
abbrev small_ring : Ring
small_ring = initialize 64 3

pushable : IsPushable block
unfolding new set_field trb_type get_field
pushable = record { word = omega arith; no_link = λ e. absurd (omega arith) }

abbrev schedule : List Op
schedule =
    produce block ∷ produce block ∷ consume ∷ produce block ∷ consume ∷ consume ∷ consume ∷ []

nothing_pending : pending small_ring first_reader ≡ []
unfolding pending initialize
nothing_pending = refl

address : IsAddress small_ring.buf_address
unfolding initialize
address = record { aligned = refl; in_range = omega arith }

at_start : IsReader small_ring first_reader
unfolding initialize
at_start = inl (refl, omega arith)

sizes : 2 + 1 ≡ small_ring.buf_size
unfolding initialize
sizes = refl

fitting : IsFitting 2 schedule (map payload (pending small_ring first_reader))
fitting =
    rw nothing_pending (pushable, omega arith, (pushable, omega arith, (pushable, omega arith, tt)))

run_ring-run_queue_example :
    run_ring schedule small_ring first_reader
    ≡ run_queue schedule (map payload (pending small_ring first_reader))
run_ring-run_queue_example =
    run_ring-run_queue schedule small_ring first_reader 2 (initialize-IsCycled 64 3 (omega arith))
      address at_start sizes fitting

alloc_mem-IsPlaced_example :
    (p : ℕ) × IsPlaced 96 6 12 4100 p
    × ((p + 96 ≤ 4096 + k_memory_pool_size)
          × (alloc_mem 4096 96 (2 ^ 6) (2 ^ 12) 4100 ≡ (some p, p + 96))
        ⊎ (4096 + k_memory_pool_size < p + 96)
          × (alloc_mem 4096 96 (2 ^ 6) (2 ^ 12) 4100 ≡ (none, p)))
alloc_mem-IsPlaced_example =
    alloc_mem-IsPlaced 4096 96 6 12 4100 (omega arith) (omega arith) (omega arith) (omega arith)
      (omega arith)
