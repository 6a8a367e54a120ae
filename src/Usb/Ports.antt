-- ===== src/Usb/Ports.antt =====
-- kernel/usb/xhci/xhci.cpp and kernel/usb/xhci/devmgr.cpp: the state of the ports and of the slots, and what a
-- step reads and asks for.
use os_jisaku.Prelude.{Bool, List, [], false, if◌then◌else◌, leb, ltb, true, ℕ, ◌&&◌, ◌++◌, ◌==◌}
use os_jisaku.Usb.Codes.{ErrorCode, k_already_allocated, k_invalid_slot_id, k_success}
use os_jisaku.Usb.Contexts.{EndpointConfig, EndpointContext}

pub data ConfigPhase : Type 0 where
  k_not_connected k_waiting_addressed k_resetting_port k_enabling_slot : ConfigPhase
  k_addressing_device k_initializing_device k_configuring_endpoints k_configured : ConfigPhase

unfoldable pub same_phase : ConfigPhase → ConfigPhase → Bool
same_phase k_not_connected k_not_connected = true
same_phase k_waiting_addressed k_waiting_addressed = true
same_phase k_resetting_port k_resetting_port = true
same_phase k_enabling_slot k_enabling_slot = true
same_phase k_addressing_device k_addressing_device = true
same_phase k_initializing_device k_initializing_device = true
same_phase k_configuring_endpoints k_configuring_endpoints = true
same_phase k_configured k_configured = true
same_phase _ _ = false

-- What the registers of the ports, the device contexts and the devices' endpoints hold when an event is
-- handled.
pub record Hardware : Type 0 where
  pub is_connected : ℕ → Bool
  pub is_enabled : ℕ → Bool
  pub is_port_reset_changed : ℕ → Bool
  pub speed : ℕ → ℕ
  pub root_hub_port_num : ℕ → ℕ
  pub endpoint_configs : ℕ → List EndpointConfig

-- What a step asks for. `prepare_input_context` is the start of `ConfigureEndpoints`: the input context's
-- control part is cleared, the slot's context is copied to it and enabled, with 31 context entries.
pub data Call : Type 0 where
  reset_port_register : ℕ → Call
  clear_port_reset_change : ℕ → Call
  push_enable_slot : Call
  push_address_device : ℕ → Call
  push_configure_endpoint : ℕ → Call
  ring_doorbell : ℕ → Call
  initialize_contexts : ℕ → ℕ → ℕ → ℕ → Call
  load_dcbaa : ℕ → Call
  start_initialize : ℕ → Call
  on_endpoints_configured : ℕ → Call
  prepare_input_context : ℕ → Call
  configure_contexts : ℕ → List (ℕ × EndpointContext) → Call

-- `port_config_phase`, `addressing_port`, the slots for which the device manager holds a device, and
-- the calls so far, the last one first.
pub record Controller : Type 0 where
  pub port_config_phase : ℕ → ConfigPhase
  pub addressing_port : ℕ
  pub devices : ℕ → Bool
  pub calls : List Call

abbrev pub start : Controller
start = record {
  port_config_phase = λ p. k_not_connected;
  addressing_port = 0;
  devices = λ slot. false;
  calls = [];
}

abbrev pub Result : Type 0
Result = ErrorCode × Controller

abbrev pub set_phase : ℕ → ConfigPhase → Controller → Controller
set_phase p phase s = record s {
  port_config_phase = λ q. if q == p then phase else s.port_config_phase q;
}

abbrev pub call : List Call → Controller → Controller
call cs s = record s { calls = cs ++ s.calls }

-- `kDeviceSize`.
abbrev pub max_slots : ℕ
max_slots = 8

-- `FindBySlot(slot_id) != nullptr`.
unfoldable pub has_device : ℕ → Controller → Bool
has_device slot_id s = leb slot_id max_slots && s.devices slot_id

-- `AllocDevice`, with memory for the device.
unfoldable pub alloc_device : ℕ → Controller → Result
alloc_device slot_id s =
    if ltb max_slots slot_id
    then (k_invalid_slot_id, s)
    else if s.devices slot_id
    then (k_already_allocated, s)
    else (k_success, record s { devices = λ q. if q == slot_id then true else s.devices q })
