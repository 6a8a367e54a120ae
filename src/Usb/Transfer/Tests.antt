-- ===== src/Usb/Transfer/Tests.antt =====
-- Transfers of a small device.
use os_jisaku.Prelude.{
  [], arith, if◌then◌else◌, inl, none, refl, some, ℕ, ◌*◌, ◌+◌, ◌-◌, ◌/◌, ◌==◌, ◌^◌, ◌∷◌, ◌≡◌,
}
use os_jisaku.Prelude.Bits.Fields.{get_field}
use os_jisaku.Prelude.Int.{pos, ◌-ℤ◌}
use os_jisaku.Usb.ArrayMap.{get}
use os_jisaku.Usb.Codes.{k_success}
use os_jisaku.Usb.Ring.{Ring, copy_to_last, initialize, push}
use os_jisaku.Usb.Ring.Cycle.{initialize-IsCycled}
use os_jisaku.Usb.Transfer.{
  Device, SetupData, completion_code, control_completed, control_in, control_out, event_endpoint,
  on_transfer_event_received, push_with_data, push_without_data,
}
use os_jisaku.Usb.Transfer.Control.{
  IsIdle, control_in-completes, control_out-completes, pushed_in, pushed_no_data,
}
use os_jisaku.Usb.Transfer.RoundTrip.{IsMemoryOf, IsSetupData, IsSuccess}
use os_jisaku.Usb.Trb.{Trb, transfer_event_layout}

-- A device with a ring of four places for its control pipe, that asks for its device descriptor.
abbrev control_ring : Ring
control_ring = initialize 4096 4

abbrev idle_device : Device
idle_device = record {
  transfer_rings = λ i. if i == 1 then some control_ring else none;
  setup_stage_map = (none, 0) ∷ (none, 0) ∷ [];
  event_waiters = (none, 0) ∷ [];
  doorbells = [];
}

abbrev get_device_descriptor : SetupData
get_device_descriptor = record {
  request_type = 128;
  request = 6;
  value = 256;
  index = 0;
  length = 256;
}

abbrev set_configuration : SetupData
set_configuration = record { request_type = 0; request = 9; value = 1; index = 0; length = 0 }

idle : IsIdle idle_device 1 control_ring
unfolding initialize get
idle = record {
  number_fits = omega arith;
  ring_there = refl;
  ring_cycled = initialize-IsCycled 4096 4 (omega arith);
  ring_size = omega arith;
  no_setup = λ i. refl;
  room = refl;
}

get_fits : IsSetupData get_device_descriptor
get_fits = record {
  request_type_fits = omega arith;
  request_fits = omega arith;
  value_fits = omega arith;
  index_fits = omega arith;
  length_fits = omega arith;
}

set_fits : IsSetupData set_configuration
set_fits = record {
  request_type_fits = omega arith;
  request_fits = omega arith;
  value_fits = omega arith;
  index_fits = omega arith;
  length_fits = omega arith;
}

abbrev memory_of : Ring → ℕ → Trb
memory_of r p = r.buf ((p - 4096) / 16)

abbrev after_get : (ℕ × ℕ) × Ring
after_get = pushed_in get_device_descriptor 8192 256 control_ring

abbrev after_set : (ℕ × ℕ) × Ring
after_set = pushed_no_data set_configuration control_ring

get_memory : IsMemoryOf (memory_of after_get.1) after_get.1
unfolding push_with_data push copy_to_last initialize
get_memory i h = let e : (4096 + 16 * i - 4096) / 16 ≡ i = omega arith in rw e

set_memory : IsMemoryOf (memory_of after_set.1) after_set.1
unfolding push_without_data push copy_to_last initialize
set_memory i h = let e : (4096 + 16 * i - 4096) / 16 ≡ i = omega arith in rw e

-- Success, with 238 bytes not transferred.
abbrev success_at : ℕ → Trb
success_at p = record { parameter = p; status = 238 + 2 ^ 24; control = 2 ^ 16 }

success_at-IsSuccess : (p : ℕ) → IsSuccess (success_at p)
unfolding completion_code get_field
success_at-IsSuccess p = inl refl

control_in-completes_example :
    let result = control_in 1 get_device_descriptor 8192 256 none idle_device in
    (result.0 ≡ k_success)
    × ((on_transfer_event_received (memory_of after_get.1) (success_at after_get.0.0) result.1).0
        ≡ control_completed (event_endpoint (success_at after_get.0.0)) get_device_descriptor 8192 (
            pos 256
            -ℤ pos
                (get_field transfer_event_layout.status_bits 0 (success_at after_get.0.0).status)))
control_in-completes_example =
    control_in-completes 1 8192 256 get_device_descriptor none idle_device control_ring
      (memory_of after_get.1) (success_at after_get.0.0) idle get_fits (omega arith) (omega arith)
      (omega arith) get_memory refl (success_at-IsSuccess after_get.0.0)

control_out-completes_example :
    let result = control_out 1 set_configuration 0 0 none idle_device in
    (result.0 ≡ k_success)
    × ((on_transfer_event_received (memory_of after_set.1) (success_at after_set.0.0) result.1).0
        ≡ control_completed (event_endpoint (success_at after_set.0.0)) set_configuration 0 (pos 0))
control_out-completes_example =
    control_out-completes 1 0 set_configuration none idle_device control_ring
      (memory_of after_set.1) (success_at after_set.0.0) idle set_fits set_memory refl
      (success_at-IsSuccess after_set.0.0)
