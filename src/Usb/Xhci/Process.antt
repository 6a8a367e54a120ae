-- ===== src/Usb/Xhci/Process.antt =====
-- kernel/usb/xhci/xhci.cpp: `ProcessEvent`, which takes one event from the event ring.
use os_jisaku.Prelude.{==→≡, Bool, Bool-cases, if◌then◌else◌, inl, inr, not, ℕ, ◌<◌, ◌==◌, ◌≡◌}
use os_jisaku.Prelude.Bits.Fields.{get_field}
use os_jisaku.Usb.Codes.{ErrorCode, k_success}
use os_jisaku.Usb.EventRing.{EventRing, front, has_front, pop}
use os_jisaku.Usb.Trb.{
  Trb, command_completion_event, control_field, pointer, port_status_change_event,
  port_status_change_event_layout, transfer_event, trb_type, type_of,
}
use os_jisaku.Usb.Xhci.{
  Controller, Event, Hardware, Result, command_completion, port_status_change, step, transfer,
  unknown,
}
use os_jisaku.Usb.Xhci.Invariant.{IsOfPort, Reachable, after}

-- What a transfer event comes to in its device: the error of `OnTransferEventReceived`, and whether the
-- device is initialized after it.
pub record TransferAnswer : Type 0 where
  pub err : ErrorCode
  pub initialized : Bool

-- The event that a block holds. `memory` is what the addresses of blocks hold.
unfoldable pub event_of : (ℕ → Trb) → (Trb → TransferAnswer) → Trb → Event
event_of memory answers t =
    if type_of transfer_event == trb_type t
    then transfer (control_field transfer_event 7 t) (answers t).err (answers t).initialized
    else if type_of port_status_change_event == trb_type t
    then port_status_change (get_field port_status_change_event_layout.parameter_bits 1 t.parameter)
    else if type_of command_completion_event == trb_type t
    then command_completion (trb_type (memory (pointer t)))
        (control_field command_completion_event 4 t)
    else unknown

unfoldable pub process_event :
    Hardware → (ℕ → Trb) → (Trb → TransferAnswer) → EventRing → Controller → Result × EventRing
process_event hw memory answers r s =
    if not (has_front r)
    then ((k_success, s), r)
    else (step hw (event_of memory answers (front r)) s, pop r)

-- The block of a port's status change names a port, numbered from 1.
abbrev pub HasPort : Trb → Type 0
HasPort t =
    type_of port_status_change_event ≡ trb_type t
    → 0 < get_field port_status_change_event_layout.parameter_bits 1 t.parameter

event_of-IsOfPort :
    (memory : ℕ → Trb) (answers : Trb → TransferAnswer) (t : Trb)
    → HasPort t
    → IsOfPort (event_of memory answers t)
unfolding event_of
event_of-IsOfPort memory answers t h = elim (Bool-cases (type_of transfer_event == trb_type t)) [
  | inl e ↦ rw e tt
  | inr f ↦ elim (Bool-cases (type_of port_status_change_event == trb_type t)) [
    | inl e ↦ rw (f, e) (h (==→≡ _ _ e))
    | inr g ↦ elim (Bool-cases (type_of command_completion_event == trb_type t)) [
      | inl e ↦ rw (f, g, e) tt
      | inr e ↦ rw (f, g, e) tt
    ]
  ]
]

-- Whatever the event ring holds, where a port's status change at its front names a port from 1 on: what `ProcessEvent` leaves can
-- be reached, so the invariant on the ports holds for every run of it.
pub process_event-Reachable :
    (hw : Hardware) (memory : ℕ → Trb) (answers : Trb → TransferAnswer) (r : EventRing)
    (s : Controller)
    → HasPort (front r)
    → Reachable s
    → Reachable (process_event hw memory answers r s).0.1
unfolding process_event
process_event-Reachable hw memory answers r s h reach = elim (Bool-cases (has_front r)) [
  | inl t ↦ rw t (
      after reach hw (event_of memory answers (front r))
        (event_of-IsOfPort memory answers (front r) h))
  | inr f ↦ rw f reach
]
