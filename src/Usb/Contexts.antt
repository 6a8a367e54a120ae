-- ===== src/Usb/Contexts.antt =====
-- kernel/usb/interface/usb/endpoint.hpp, kernel/usb/interface/usb/xhci/context.hpp and
-- kernel/usb/xhci/speed.hpp: endpoints, and the contexts that describe them to the controller.
use os_jisaku.Graphics.Geometry.{width}
use os_jisaku.Prelude.{
  Bool, false, if◌then◌else◌, suc, true, zero, ℕ, ◌%◌, ◌*◌, ◌+◌, ◌-◌, ◌/◌, ◌==◌, ◌^◌, ◌||◌,
}
use os_jisaku.Prelude.Int.{negsuc, pos, ℤ, ◌+ℤ◌, ◌-ℤ◌}

pub data EndpointType : Type 0 where
  k_control k_isochronous k_bulk k_interrupt : EndpointType

-- `EndpointID(ep_num, dir_in)`, and its parts.
abbrev pub endpoint_id : ℕ → Bool → ℕ
endpoint_id ep_num dir_in = ep_num * 2 + (if dir_in then 1 else 0)

abbrev pub number : ℕ → ℕ
number addr = addr / 2

abbrev pub is_in : ℕ → Bool
is_in addr = addr % 2 == 1

pub record EndpointConfig : Type 0 where
  pub ep_id : ℕ
  pub ep_type : EndpointType
  pub max_packet_size : ℕ
  pub interval : ℕ

-- The fields of `EndpointContext` that the driver sets.
pub record EndpointContext : Type 0 where
  pub context_ep_type : ℕ
  pub context_max_packet_size : ℕ
  pub context_interval : ℕ
  pub average_trb_length : ℕ
  pub dequeue_cycle_state : ℕ
  pub max_primary_streams : ℕ
  pub mult : ℕ
  pub error_count : ℕ

-- The speeds.
abbrev pub k_full_speed : ℕ
k_full_speed = 1

abbrev pub k_low_speed : ℕ
k_low_speed = 2

abbrev pub k_super_speed_plus : ℕ
k_super_speed_plus = 5

-- The index of the highest bit that is set, of a number below 2 ^ `width`.
unfoldable pub highest_bit : ℕ → ℕ → ℕ
highest_bit zero value = 0
highest_bit (suc width) value =
    let rest = highest_bit width (value / 2) in if value / 2 == 0 then 0 else rest + 1

abbrev pub most_significant_bit : ℕ → ℤ
most_significant_bit value = if value == 0 then negsuc 0 else pos (highest_bit 32 value)

abbrev pub is_isochronous : EndpointType → Bool
is_isochronous k_isochronous = true
is_isochronous _ = false

-- The two functions of `ConfigureEndpoints` that convert an interval.
unfoldable pub convert_interval : ℕ → EndpointType → ℕ → ℤ
convert_interval port_speed type interval =
    if (port_speed == k_full_speed) || (port_speed == k_low_speed)
    then (if is_isochronous type
        then pos (interval + 2)
        else most_significant_bit interval +ℤ pos 3)
    else pos interval -ℤ pos 1

-- An `int` in a field of `width` bits.
unfoldable pub field_of : ℕ → ℤ → ℕ
field_of width (pos n) = n % 2 ^ width
field_of width (negsuc n) = 2 ^ width - 1 - n % 2 ^ width

abbrev pub context_type : EndpointType → Bool → ℕ
context_type k_control dir_in = 4
context_type k_isochronous dir_in = if dir_in then 5 else 1
context_type k_bulk dir_in = if dir_in then 6 else 2
context_type k_interrupt dir_in = if dir_in then 7 else 3

-- The body of the loop of `ConfigureEndpoints`, with the place of the context. The transfer ring that it
-- allocates, and the ring's address, are left out.
unfoldable pub endpoint_context : ℕ → EndpointConfig → ℕ × EndpointContext
endpoint_context port_speed config = (
  config.ep_id,
  record {
    context_ep_type = context_type config.ep_type (is_in config.ep_id);
    context_max_packet_size = config.max_packet_size % 2 ^ 16;
    context_interval = field_of 8 (convert_interval port_speed config.ep_type config.interval);
    average_trb_length = 1;
    dequeue_cycle_state = 1;
    max_primary_streams = 0;
    mult = 0;
    error_count = 3;
  },
)
