-- ===== src/Usb/Transfer/Control.antt =====
-- kernel/usb/xhci/device.cpp: `ControlIn` and `ControlOut`, from the call to the completion.
use os_jisaku.Prelude.{
  Option, arith, false, ltb, none, refl, some, true, ℕ, ◌<◌, ◌==◌, ◌^◌, ◌∙◌, ◌≡◌, ◌≢◌, ◌≤◌,
}
use os_jisaku.Prelude.Bits.Fields.{get_field, set_field}
use os_jisaku.Prelude.Int.{pos, ◌-ℤ◌}
use os_jisaku.Usb.ArrayMap.{get, has_room}
use os_jisaku.Usb.Codes.{k_success}
use os_jisaku.Usb.Contexts.{number}
use os_jisaku.Usb.Ring.{Ring, push}
use os_jisaku.Usb.Ring.Cycle.{IsCycled, IsPushable}
use os_jisaku.Usb.Transfer.{
  Device, SetupData, block_address, complete_control, control_completed, control_in, control_out,
  event_endpoint, k_in_data_stage, k_no_data_stage, make_data_stage_trb, make_setup_stage_trb,
  make_status_stage, on_transfer_event_received, push_with_data, push_without_data, started,
  transferred, wait_for,
}
use os_jisaku.Usb.Transfer.RoundTrip.{
  IsMemoryOf, IsSetupData, IsSuccess, completes, setup_data_of-make_setup_stage_trb,
}
use os_jisaku.Usb.Transfer.Started.{push_with_data-IsStarted, push_without_data-IsStarted}
use os_jisaku.Usb.Trb.{
  Trb, data_stage, new, new_setup_stage, normal, normal_layout, status_stage, transfer_event_layout,
  trb_type, type_of, with_control,
}

-- A device that can start a transfer: a ring in order, room for the setup stage, and no earlier setup
-- stage at the completing block's address.
pub record IsIdle (dev : Device) (ep_id : ℕ) (r : Ring) : Type 0 where
  pub number_fits : number ep_id ≤ 15
  pub ring_there : dev.transfer_rings ep_id ≡ some r
  pub ring_cycled : IsCycled r
  pub ring_size : 3 < r.buf_size
  pub no_setup : (i : ℕ) → get ◌==◌ dev.setup_stage_map (block_address r i) ≡ none
  pub room : has_room dev.setup_stage_map ≡ true

-- The blocks that the driver pushes are of 32-bit words, and no links.
setup_in : (d : SetupData) → IsPushable (make_setup_stage_trb d k_in_data_stage)
unfolding make_setup_stage_trb with_control new_setup_stage new set_field trb_type get_field
setup_in d = record { word = omega arith; no_link = λ e. absurd (omega arith) }

setup_no_data : (d : SetupData) → IsPushable (make_setup_stage_trb d k_no_data_stage)
unfolding make_setup_stage_trb with_control new_setup_stage new set_field trb_type get_field
setup_no_data d = record { word = omega arith; no_link = λ e. absurd (omega arith) }

abbrev data_in : ℕ → ℕ → Trb
data_in buf len = with_control data_stage 5 1 (make_data_stage_trb buf len true)

data_in-IsPushable : (buf len : ℕ) → IsPushable (data_in buf len)
unfolding make_data_stage_trb with_control new set_field trb_type get_field
data_in-IsPushable buf len = record { word = omega arith; no_link = λ e. absurd (omega arith) }

data_in-fields :
    (buf len : ℕ)
    → buf < 2 ^ 64
    → len < 2 ^ 17
    → (trb_type (data_in buf len) ≡ type_of data_stage)
      × ((data_in buf len).parameter ≡ buf)
      × (get_field normal_layout.status_bits 0 (data_in buf len).status ≡ len)
unfolding make_data_stage_trb with_control new set_field trb_type get_field
data_in-fields buf len h k = (refl, omega arith, omega arith)

status_out-IsPushable : IsPushable (make_status_stage true true)
unfolding make_status_stage with_control new set_field trb_type get_field
status_out-IsPushable = record { word = omega arith; no_link = λ e. absurd (omega arith) }

status_out-type : trb_type (make_status_stage true true) ≡ type_of status_stage
unfolding make_status_stage with_control new set_field trb_type get_field
status_out-type = refl

-- The ring after a transfer with data to the host, with the two addresses, and after one without data.
abbrev pub pushed_in : SetupData → ℕ → ℕ → Ring → (ℕ × ℕ) × Ring
pushed_in d buf len r =
    push_with_data (make_setup_stage_trb d k_in_data_stage) (data_in buf len)
      (make_status_stage false false) r

abbrev pub pushed_no_data : SetupData → Ring → (ℕ × ℕ) × Ring
pushed_no_data d r =
    push_without_data (make_setup_stage_trb d k_no_data_stage) (make_status_stage true true) r

-- The class driver that waits changes neither the rings nor the setup stages.
wait_for_keeps :
    (d : SetupData) (issuer : Option ℕ) (dev : Device)
    → ((wait_for d issuer dev).transfer_rings ≡ dev.transfer_rings)
      × ((wait_for d issuer dev).setup_stage_map ≡ dev.setup_stage_map)
unfolding wait_for
wait_for_keeps d none dev = (refl, refl)
wait_for_keeps d (some i) dev = (refl, refl)

ring_waiting :
    (ep_id : ℕ) (d : SetupData) (issuer : Option ℕ) (dev : Device) (r : Ring)
    → IsIdle dev ep_id r
    → (wait_for d issuer dev).transfer_rings ep_id ≡ some r
ring_waiting ep_id d issuer dev r h = rw ((wait_for_keeps d issuer dev).0) h.ring_there

number_test : (ep_id : ℕ) → number ep_id ≤ 15 → ltb 15 (number ep_id) ≡ false
number_test ep_id h = ground arith

control_in-started :
    (ep_id buf len : ℕ) (d : SetupData) (issuer : Option ℕ) (dev : Device) (r : Ring)
    → IsIdle dev ep_id r
    → 0 < buf
    → control_in ep_id d buf len issuer dev
      ≡ (k_success, started ep_id (pushed_in d buf len r) (wait_for d issuer dev))
unfolding control_in
control_in-started ep_id buf len d issuer dev r h lt =
    let f : (buf == 0) ≡ false = ground arith in
    rw (number_test ep_id h.number_fits, ring_waiting ep_id d issuer dev r h, f)

control_out-started :
    (ep_id len : ℕ) (d : SetupData) (issuer : Option ℕ) (dev : Device) (r : Ring)
    → IsIdle dev ep_id r
    → control_out ep_id d 0 len issuer dev
      ≡ (k_success, started ep_id (pushed_no_data d r) (wait_for d issuer dev))
unfolding control_out
control_out-started ep_id len d issuer dev r h =
    rw (number_test ep_id h.number_fits, ring_waiting ep_id d issuer dev r h)

-- The completion of a data stage and of a status stage.
complete_control-data_in :
    (event : Trb) (buf len : ℕ) (d : SetupData)
    → buf < 2 ^ 64
    → len < 2 ^ 17
    → complete_control event (data_in buf len) d
      ≡ control_completed
          (event_endpoint event)
          d
          buf
          (pos len -ℤ pos (get_field transfer_event_layout.status_bits 0 event.status))
unfolding complete_control transferred
complete_control-data_in event buf len d h k =
    let (t, p, l) = data_in-fields buf len h k in rw (t, p, l)

complete_control-status_out :
    (event : Trb) (d : SetupData)
    → complete_control event (make_status_stage true true) d
      ≡ control_completed (event_endpoint event) d 0 (pos 0)
unfolding complete_control
complete_control-status_out event d = rw status_out-type

-- Of a device with a ring of four places or more, room for a setup stage, and none at the ring's
-- addresses: a transfer of up to 2 ^ 17 - 1 bytes to the host succeeds, and the event that reports success,
-- or a short packet, for the address of its data stage is handed on with the same setup data, the
-- same buffer, and the length asked for less the event's residual length.
pub control_in-completes :
    (ep_id buf len : ℕ) (d : SetupData) (issuer : Option ℕ) (dev : Device) (r : Ring)
    (memory : ℕ → Trb) (event : Trb)
    → IsIdle dev ep_id r
    → IsSetupData d
    → 0 < buf
    → buf < 2 ^ 64
    → len < 2 ^ 17
    → IsMemoryOf memory (pushed_in d buf len r).1
    → event.parameter ≡ (pushed_in d buf len r).0.0
    → IsSuccess event
    → let result = control_in ep_id d buf len issuer dev in
      (result.0 ≡ k_success)
      × ((on_transfer_event_received memory event result.1).0
          ≡ control_completed
              (event_endpoint event)
              d
              buf
              (pos len -ℤ pos (get_field transfer_event_layout.status_bits 0 event.status)))
unfolding push_with_data
control_in-completes ep_id buf len d issuer dev r memory event h f lt b l m names ok =
    let s =
      push_with_data-IsStarted (make_setup_stage_trb d k_in_data_stage) (data_in buf len)
        (make_status_stage false false) r h.ring_cycled (setup_in d) (data_in-IsPushable buf len)
        h.ring_size in
    let keeps = (wait_for_keeps d issuer dev).1 in
    let not_normal : trb_type (data_in buf len) ≢ type_of normal =
      rw ((data_in-fields buf len b l).0) (omega arith) in
    rw (control_in-started ep_id buf len d issuer dev r h lt) (
      refl,
      completes memory event (wait_for d issuer dev) ep_id (make_setup_stage_trb d k_in_data_stage)
            (data_in buf len) r (pushed_in d buf len r) s m
            (rw keeps (
              h.no_setup
                (push (data_in buf len) (push (make_setup_stage_trb d k_in_data_stage) r).1).0))
            (rw keeps h.room) names ok (data_in-IsPushable buf len).word not_normal
          ∙ rw (setup_data_of-make_setup_stage_trb d k_in_data_stage f)
              (complete_control-data_in event buf len d b l),
    )

-- Of a device with a ring of four places or more, room for a setup stage, and none at the ring's
-- addresses: a transfer without data, from the host, succeeds, and the event that reports success for the
-- address of its status stage is handed on with the same setup data, no buffer and the length 0.
pub control_out-completes :
    (ep_id len : ℕ) (d : SetupData) (issuer : Option ℕ) (dev : Device) (r : Ring) (memory : ℕ → Trb)
    (event : Trb)
    → IsIdle dev ep_id r
    → IsSetupData d
    → IsMemoryOf memory (pushed_no_data d r).1
    → event.parameter ≡ (pushed_no_data d r).0.0
    → IsSuccess event
    → let result = control_out ep_id d 0 len issuer dev in
      (result.0 ≡ k_success)
      × ((on_transfer_event_received memory event result.1).0
          ≡ control_completed (event_endpoint event) d 0 (pos 0))
unfolding push_without_data
control_out-completes ep_id len d issuer dev r memory event h f m names ok =
    let s =
      push_without_data-IsStarted (make_setup_stage_trb d k_no_data_stage)
        (make_status_stage true true) r h.ring_cycled (setup_no_data d) status_out-IsPushable
        h.ring_size in
    let keeps = (wait_for_keeps d issuer dev).1 in
    let not_normal : trb_type (make_status_stage true true) ≢ type_of normal =
      rw status_out-type (omega arith) in
    rw (control_out-started ep_id len d issuer dev r h) (
      refl,
      completes memory event (wait_for d issuer dev) ep_id (make_setup_stage_trb d k_no_data_stage)
            (make_status_stage true true) r (pushed_no_data d r) s m
            (rw keeps (
              h.no_setup
                (push (make_status_stage true true)
                  (push (make_setup_stage_trb d k_no_data_stage) r).1).0))
            (rw keeps h.room) names ok status_out-IsPushable.word not_normal
          ∙ rw (setup_data_of-make_setup_stage_trb d k_no_data_stage f)
              (complete_control-status_out event d),
    )
