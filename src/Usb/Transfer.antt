-- ===== src/Usb/Transfer.antt =====
-- kernel/usb/xhci/device.cpp and kernel/usb/interface/usb/setupdata.hpp: control and interrupt transfers of
-- a device, and the events that complete them. An address stands for a pointer; 0 is the null pointer.
pub mod RoundTrip
pub mod Started
pub mod Control
mod Tests
use os_jisaku.Prelude.{
  Bool, List, Option, false, if◌then◌else◌, length, ltb, none, not, some, true, ℕ, ◌&&◌, ◌*◌, ◌+◌,
  ◌==◌, ◌∷◌,
}
use os_jisaku.Prelude.Bits.Fields.{get_field, set_field}
use os_jisaku.Prelude.Int.{pos, ℤ, ◌-ℤ◌}
use os_jisaku.Usb.ArrayMap.{Table, delete, get, put}
use os_jisaku.Usb.Codes.{
  ErrorCode, k_invalid_endpoint_number, k_no_corresponding_setup_stage, k_not_implemented,
  k_success, k_transfer_failed, k_transfer_ring_not_set,
}
use os_jisaku.Usb.Contexts.{number}
use os_jisaku.Usb.Ring.{Ring, push}
use os_jisaku.Usb.Trb.{
  Trb, data_stage, data_stage_layout, new, new_setup_stage, normal, normal_layout, setup_stage,
  setup_stage_layout, status_stage, transfer_event_layout, trb_type, type_of, with_control,
}

pub record SetupData : Type 0 where
  pub request_type : ℕ
  pub request : ℕ
  pub value : ℕ
  pub index : ℕ
  pub length : ℕ

-- `operator==`.
unfoldable pub eq_setup_data : SetupData → SetupData → Bool
eq_setup_data lhs rhs =
    (lhs.request_type == rhs.request_type)
    && (lhs.request == rhs.request)
    && (lhs.value == rhs.value)
    && (lhs.index == rhs.index)
    && (lhs.length == rhs.length)

-- The transfer types of a setup stage.
abbrev pub k_no_data_stage : ℕ
k_no_data_stage = 0

abbrev pub k_out_data_stage : ℕ
k_out_data_stage = 2

abbrev pub k_in_data_stage : ℕ
k_in_data_stage = 3

-- The five fields of `parameter`, from the first.
unfoldable pub setup_parameter : SetupData → ℕ → ℕ
setup_parameter d p =
    let bits = setup_stage_layout.parameter_bits in
    set_field bits 4 d.length (
      set_field bits 3 d.index
        (set_field bits 2 d.value (set_field bits 1 d.request (set_field bits 0 d.request_type p))))

unfoldable pub make_setup_stage_trb : SetupData → ℕ → Trb
make_setup_stage_trb d transfer_type =
    with_control setup_stage 6 transfer_type
      (record new_setup_stage { parameter = setup_parameter d 0 })

unfoldable pub make_data_stage_trb : ℕ → ℕ → Bool → Trb
make_data_stage_trb buf len dir_in =
    let bits = data_stage_layout.status_bits in
    with_control data_stage 9 (if dir_in then 1 else 0) (record (new data_stage) {
      parameter = set_field data_stage_layout.parameter_bits 0 buf 0;
      status = set_field bits 1 0 (set_field bits 0 len 0);
    })

-- `interrupt_on_completion` and `direction` of a status stage.
unfoldable pub make_status_stage : Bool → Bool → Trb
make_status_stage direction interrupt =
    with_control status_stage 4 (if interrupt then 1 else 0)
      (with_control status_stage 7 (if direction then 1 else 0) (new status_stage))

-- What a device keeps: the ring of each context index from 1 on, the setup stages by the address of the block
-- that completes them, the class drivers that wait for a request, and the doorbells rung, the last
-- one first. A class driver is a number.
pub record Device : Type 0 where
  pub transfer_rings : ℕ → Option Ring
  pub setup_stage_map : Table ℕ ℕ
  pub event_waiters : Table SetupData ℕ
  pub doorbells : List ℕ

abbrev pub DeviceResult : Type 0
DeviceResult = ErrorCode × Device

-- The address of the block at an index of a ring.
abbrev pub block_address : Ring → ℕ → ℕ
block_address r i = r.buf_address + 16 * i

-- `ControlIn` and `ControlOut` of `usb::Device`: who waits.
unfoldable pub wait_for : SetupData → Option ℕ → Device → Device
wait_for setup_data none dev = dev
wait_for setup_data (some issuer) dev = record dev {
  event_waiters = put dev.event_waiters setup_data issuer;
}

-- The three blocks of a transfer with data, and the two of one without. The first result is the
-- address of the block that completes the transfer, the second that of the setup stage.
unfoldable pub push_with_data : Trb → Trb → Trb → Ring → (ℕ × ℕ) × Ring
push_with_data setup data_trb status r =
    let (setup_index, r1) = push setup r in
    let (data_index, r2) = push data_trb r1 in
    let (status_index, r3) = push status r2 in
    ((block_address r data_index, block_address r setup_index), r3)

unfoldable pub push_without_data : Trb → Trb → Ring → (ℕ × ℕ) × Ring
push_without_data setup status r =
    let (setup_index, r1) = push setup r in
    let (status_index, r2) = push status r1 in
    ((block_address r status_index, block_address r setup_index), r2)

-- `setup_stage_map_.Put` and the doorbell.
unfoldable pub started : ℕ → (ℕ × ℕ) × Ring → Device → Device
started dci ((completing, setup), r) dev = record dev {
  transfer_rings = λ i. if i == dci then some r else dev.transfer_rings i;
  setup_stage_map = put dev.setup_stage_map completing setup;
  doorbells = dci ∷ dev.doorbells;
}

unfoldable pub control_in : ℕ → SetupData → ℕ → ℕ → Option ℕ → Device → DeviceResult
control_in ep_id setup_data buf len issuer dev =
    let waiting = wait_for setup_data issuer dev in
    if ltb 15 (number ep_id)
    then (k_invalid_endpoint_number, waiting)
    else elim (waiting.transfer_rings ep_id) [
      | none ↦ (k_transfer_ring_not_set, waiting)
      | some tr ↦ (
        k_success,
        started ep_id
            (if buf == 0
              then push_without_data (make_setup_stage_trb setup_data k_no_data_stage)
                  (make_status_stage true true) tr
              else push_with_data (make_setup_stage_trb setup_data k_in_data_stage)
                  (with_control data_stage 5 1 (make_data_stage_trb buf len true))
                  (make_status_stage false false) tr)
            waiting,
      )
    ]

unfoldable pub control_out : ℕ → SetupData → ℕ → ℕ → Option ℕ → Device → DeviceResult
control_out ep_id setup_data buf len issuer dev =
    let waiting = wait_for setup_data issuer dev in
    if ltb 15 (number ep_id)
    then (k_invalid_endpoint_number, waiting)
    else elim (waiting.transfer_rings ep_id) [
      | none ↦ (k_transfer_ring_not_set, waiting)
      | some tr ↦ (
        k_success,
        started ep_id
            (if buf == 0
              then push_without_data (make_setup_stage_trb setup_data k_no_data_stage)
                  (make_status_stage true true) tr
              else push_with_data (make_setup_stage_trb setup_data k_out_data_stage)
                  (with_control data_stage 5 1 (make_data_stage_trb buf len false))
                  (make_status_stage true false) tr)
            waiting,
      )
    ]

-- `InterruptIn`: a normal block, with an interrupt on a short packet and on completion.
unfoldable pub make_normal_trb : ℕ → ℕ → Trb
make_normal_trb buf len = with_control normal 5 1 (
    with_control normal 2 1 (record (new normal) {
      parameter = set_field normal_layout.parameter_bits 0 buf 0;
      status = set_field normal_layout.status_bits 0 len 0;
    }))

unfoldable pub interrupt_in : ℕ → ℕ → ℕ → Device → DeviceResult
interrupt_in ep_id buf len dev = elim (dev.transfer_rings ep_id) [
  | none ↦ (k_transfer_ring_not_set, dev)
  | some tr ↦ (
    k_success,
    record dev {
      transfer_rings = λ i.
          if i == ep_id then some (push (make_normal_trb buf len) tr).1 else dev.transfer_rings i;
      doorbells = ep_id ∷ dev.doorbells;
    },
  )
]

-- `InterruptOut`.
unfoldable pub interrupt_out : ℕ → ℕ → ℕ → Device → DeviceResult
interrupt_out ep_id buf len dev = (k_not_implemented, dev)

-- What an event comes to: an error, or a call of the device's `OnInterruptCompleted` or
-- `OnControlCompleted`.
pub data Outcome : Type 0 where
  failed : ErrorCode → Outcome
  interrupt_completed : ℕ → ℕ → ℤ → Outcome
  control_completed : ℕ → SetupData → ℕ → ℤ → Outcome

-- The length of a block less the residual length of the event.
unfoldable pub transferred : Trb → Trb → ℤ
transferred issuer event =
    pos (get_field normal_layout.status_bits 0 issuer.status)
    -ℤ pos (get_field transfer_event_layout.status_bits 0 event.status)

-- The setup data that a setup stage holds.
unfoldable pub setup_data_of : Trb → SetupData
setup_data_of t =
    let bits = setup_stage_layout.parameter_bits in
    record {
      request_type = get_field bits 0 t.parameter;
      request = get_field bits 1 t.parameter;
      value = get_field bits 2 t.parameter;
      index = get_field bits 3 t.parameter;
      length = get_field bits 4 t.parameter;
    }

unfoldable pub event_endpoint : Trb → ℕ
event_endpoint event = get_field transfer_event_layout.control_bits 5 event.control

unfoldable pub completion_code : Trb → ℕ
completion_code event = get_field transfer_event_layout.status_bits 1 event.status

-- The end of `OnTransferEventReceived`, by the kind of the block.
unfoldable pub complete_control : Trb → Trb → SetupData → Outcome
complete_control event issuer setup_data =
    if type_of data_stage == trb_type issuer
    then control_completed (event_endpoint event) setup_data issuer.parameter
        (transferred issuer event)
    else if type_of status_stage == trb_type issuer
    then control_completed (event_endpoint event) setup_data 0 (pos 0)
    else failed k_not_implemented

-- `OnTransferEventReceived`. `memory` is what the addresses of blocks hold.
unfoldable pub on_transfer_event_received : (ℕ → Trb) → Trb → Device → Outcome × Device
on_transfer_event_received memory event dev =
    let issuer = memory event.parameter in
    if not (completion_code event == 1) && not (completion_code event == 13)
    then (failed k_transfer_failed, dev)
    else if type_of normal == trb_type issuer
    then (
      interrupt_completed (event_endpoint event) issuer.parameter (transferred issuer event),
      dev,
    )
    else elim (get ◌==◌ dev.setup_stage_map event.parameter) [
      | none ↦ (failed k_no_corresponding_setup_stage, dev)
      | some setup ↦ (
        complete_control event issuer (setup_data_of (memory setup)),
        record dev { setup_stage_map = delete ◌==◌ dev.setup_stage_map event.parameter },
      )
    ]
