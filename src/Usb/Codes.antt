-- ===== src/Usb/Codes.antt =====
-- kernel/usb/interface/usb/error.hpp: the codes of `usb::Error`.
use os_jisaku.Prelude.{Bool, false, true}

pub data ErrorCode : Type 0 where
  k_success k_full k_empty k_no_enough_memory k_index_out_of_range : ErrorCode
  k_host_controller_not_halted k_invalid_slot_id k_port_not_connected : ErrorCode
  k_invalid_endpoint_number k_transfer_ring_not_set k_already_allocated : ErrorCode
  k_not_implemented k_invalid_descriptor k_buffer_too_small k_unknown_device : ErrorCode
  k_no_corresponding_setup_stage k_transfer_failed k_invalid_phase : ErrorCode
  k_unknown_xhci_speed_id k_no_waiter k_last_of_code : ErrorCode

-- `operator bool`.
abbrev pub is_failure : ErrorCode → Bool
is_failure k_success = false
is_failure _ = true
