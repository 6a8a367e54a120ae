-- ===== src/Usb/Trb.antt =====
-- kernel/usb/interface/usb/xhci/trb.hpp: transfer request blocks and their layouts.
pub mod Casts
use os_jisaku.Prelude.{List, Option, [], if◌then◌else◌, none, some, ℕ, ◌*◌, ◌/◌, ◌==◌, ◌^◌, ◌∷◌}
use os_jisaku.Prelude.Bits.Fields.{get_field, set_field}

-- `TRB`: the first 64 bits, the next 32, and the 32 that hold the cycle bit and the type.
pub record Trb : Type 0 where
  pub parameter : ℕ
  pub status : ℕ
  pub control : ℕ

-- One for each union of the file.
pub data TrbKind : Type 0 where
  normal setup_stage data_stage status_stage link no_op : TrbKind
  enable_slot_command address_device_command configure_endpoint_command : TrbKind
  stop_endpoint_command no_op_command : TrbKind
  transfer_event command_completion_event port_status_change_event : TrbKind

-- `Type`.
abbrev pub type_of : TrbKind → ℕ
type_of normal = 1
type_of setup_stage = 2
type_of data_stage = 3
type_of status_stage = 4
type_of link = 6
type_of no_op = 8
type_of enable_slot_command = 9
type_of address_device_command = 11
type_of configure_endpoint_command = 12
type_of stop_endpoint_command = 15
type_of no_op_command = 23
type_of transfer_event = 32
type_of command_completion_event = 33
type_of port_status_change_event = 34

-- The widths of a union's bit fields, from the lowest bit up, unnamed fields included.
pub record Layout : Type 0 where
  pub parameter_bits : List ℕ
  pub status_bits : List ℕ
  pub control_bits : List ℕ

abbrev pub normal_layout : Layout
normal_layout = record {
  parameter_bits = 64 ∷ [];
  status_bits = 17 ∷ 5 ∷ 10 ∷ [];
  control_bits = 1 ∷ 1 ∷ 1 ∷ 1 ∷ 1 ∷ 1 ∷ 1 ∷ 2 ∷ 1 ∷ 6 ∷ 16 ∷ [];
}

abbrev pub setup_stage_layout : Layout
setup_stage_layout = record {
  parameter_bits = 8 ∷ 8 ∷ 16 ∷ 16 ∷ 16 ∷ [];
  status_bits = 17 ∷ 5 ∷ 10 ∷ [];
  control_bits = 1 ∷ 4 ∷ 1 ∷ 1 ∷ 3 ∷ 6 ∷ 2 ∷ 14 ∷ [];
}

abbrev pub data_stage_layout : Layout
data_stage_layout = record {
  parameter_bits = 64 ∷ [];
  status_bits = 17 ∷ 5 ∷ 10 ∷ [];
  control_bits = 1 ∷ 1 ∷ 1 ∷ 1 ∷ 1 ∷ 1 ∷ 1 ∷ 3 ∷ 6 ∷ 1 ∷ 15 ∷ [];
}

abbrev pub status_stage_layout : Layout
status_stage_layout = record {
  parameter_bits = 64 ∷ [];
  status_bits = 22 ∷ 10 ∷ [];
  control_bits = 1 ∷ 1 ∷ 2 ∷ 1 ∷ 1 ∷ 4 ∷ 6 ∷ 1 ∷ 15 ∷ [];
}

abbrev pub link_layout : Layout
link_layout = record {
  parameter_bits = 4 ∷ 60 ∷ [];
  status_bits = 22 ∷ 10 ∷ [];
  control_bits = 1 ∷ 1 ∷ 2 ∷ 1 ∷ 1 ∷ 4 ∷ 6 ∷ 16 ∷ [];
}

abbrev pub no_op_layout : Layout
no_op_layout = record {
  parameter_bits = 64 ∷ [];
  status_bits = 22 ∷ 10 ∷ [];
  control_bits = 1 ∷ 1 ∷ 2 ∷ 1 ∷ 1 ∷ 4 ∷ 6 ∷ 16 ∷ [];
}

abbrev pub enable_slot_command_layout : Layout
enable_slot_command_layout = record {
  parameter_bits = 32 ∷ 32 ∷ [];
  status_bits = 32 ∷ [];
  control_bits = 1 ∷ 9 ∷ 6 ∷ 5 ∷ 11 ∷ [];
}

abbrev pub address_device_command_layout : Layout
address_device_command_layout = record {
  parameter_bits = 4 ∷ 60 ∷ [];
  status_bits = 32 ∷ [];
  control_bits = 1 ∷ 8 ∷ 1 ∷ 6 ∷ 8 ∷ 8 ∷ [];
}

abbrev pub configure_endpoint_command_layout : Layout
configure_endpoint_command_layout = record {
  parameter_bits = 4 ∷ 60 ∷ [];
  status_bits = 32 ∷ [];
  control_bits = 1 ∷ 8 ∷ 1 ∷ 6 ∷ 8 ∷ 8 ∷ [];
}

abbrev pub stop_endpoint_command_layout : Layout
stop_endpoint_command_layout = record {
  parameter_bits = 32 ∷ 32 ∷ [];
  status_bits = 32 ∷ [];
  control_bits = 1 ∷ 9 ∷ 6 ∷ 5 ∷ 2 ∷ 1 ∷ 8 ∷ [];
}

abbrev pub no_op_command_layout : Layout
no_op_command_layout = record {
  parameter_bits = 32 ∷ 32 ∷ [];
  status_bits = 32 ∷ [];
  control_bits = 1 ∷ 9 ∷ 6 ∷ 16 ∷ [];
}

abbrev pub transfer_event_layout : Layout
transfer_event_layout = record {
  parameter_bits = 64 ∷ [];
  status_bits = 24 ∷ 8 ∷ [];
  control_bits = 1 ∷ 1 ∷ 1 ∷ 7 ∷ 6 ∷ 5 ∷ 3 ∷ 8 ∷ [];
}

abbrev pub command_completion_event_layout : Layout
command_completion_event_layout = record {
  parameter_bits = 4 ∷ 60 ∷ [];
  status_bits = 24 ∷ 8 ∷ [];
  control_bits = 1 ∷ 9 ∷ 6 ∷ 8 ∷ 8 ∷ [];
}

abbrev pub port_status_change_event_layout : Layout
port_status_change_event_layout = record {
  parameter_bits = 24 ∷ 8 ∷ 32 ∷ [];
  status_bits = 24 ∷ 8 ∷ [];
  control_bits = 1 ∷ 9 ∷ 6 ∷ [];
}

abbrev pub layout : TrbKind → Layout
layout normal = normal_layout
layout setup_stage = setup_stage_layout
layout data_stage = data_stage_layout
layout status_stage = status_stage_layout
layout link = link_layout
layout no_op = no_op_layout
layout enable_slot_command = enable_slot_command_layout
layout address_device_command = address_device_command_layout
layout configure_endpoint_command = configure_endpoint_command_layout
layout stop_endpoint_command = stop_endpoint_command_layout
layout no_op_command = no_op_command_layout
layout transfer_event = transfer_event_layout
layout command_completion_event = command_completion_event_layout
layout port_status_change_event = port_status_change_event_layout

abbrev pub control_layout : TrbKind → List ℕ
control_layout k = (layout k).control_bits

-- The position of `trb_type` among them. That of `cycle_bit` is 0.
abbrev pub type_field : TrbKind → ℕ
type_field normal = 9
type_field setup_stage = 5
type_field data_stage = 8
type_field status_stage = 6
type_field link = 6
type_field no_op = 6
type_field enable_slot_command = 2
type_field address_device_command = 3
type_field configure_endpoint_command = 3
type_field stop_endpoint_command = 2
type_field no_op_command = 2
type_field transfer_event = 4
type_field command_completion_event = 2
type_field port_status_change_event = 2

-- The generic `TRB`, through which `TRBDynamicCast` reads the type.
abbrev pub trb_layout : List ℕ
trb_layout = 1 ∷ 1 ∷ 8 ∷ 6 ∷ 16 ∷ []

unfoldable pub cycle_bit : Trb → ℕ
cycle_bit t = get_field trb_layout 0 t.control

unfoldable pub trb_type : Trb → ℕ
trb_type t = get_field trb_layout 3 t.control

-- A block of a kind, with the type alone, as most of the constructors leave it.
unfoldable pub new : TrbKind → Trb
new k = record {
  parameter = 0;
  status = 0;
  control = set_field (control_layout k) (type_field k) (type_of k) 0;
}

-- `TRBDynamicCast`.
unfoldable pub trb_dynamic_cast : TrbKind → Trb → Option Trb
trb_dynamic_cast k t = if type_of k == trb_type t then some t else none

-- A field of `control` by the layout of a kind, read and written.
unfoldable pub control_field : TrbKind → ℕ → Trb → ℕ
control_field k i t = get_field (control_layout k) i t.control

unfoldable pub with_control : TrbKind → ℕ → ℕ → Trb → Trb
with_control k i v t = record t { control = set_field (control_layout k) i v t.control }

-- `SetupStageTRB()`.
unfoldable pub new_setup_stage : Trb
new_setup_stage = record (with_control setup_stage 3 1 (new setup_stage)) {
  status = set_field setup_stage_layout.status_bits 0 8 0;
}

-- `SetPointer` and `Pointer`, where the pointer has 60 bits above 4 that are left.
unfoldable pub set_pointer : ℕ → Trb → Trb
set_pointer p t = record t {
  parameter = set_field link_layout.parameter_bits 1 (p / 2 ^ 4) t.parameter;
}

unfoldable pub pointer : Trb → ℕ
pointer t = get_field link_layout.parameter_bits 1 t.parameter * 2 ^ 4

-- `LinkTRB(p)`.
unfoldable pub new_link : ℕ → Trb
new_link p = set_pointer p (new link)

-- `AddressDeviceCommandTRB(p, slot_id)` and `ConfigureEndpointCommandTRB(p, slot_id)`.
unfoldable pub new_address_device : ℕ → ℕ → Trb
new_address_device p slot_id =
    set_pointer p (with_control address_device_command 5 slot_id (new address_device_command))

unfoldable pub new_configure_endpoint : ℕ → ℕ → Trb
new_configure_endpoint p slot_id =
    set_pointer p
      (with_control configure_endpoint_command 5 slot_id (new configure_endpoint_command))
