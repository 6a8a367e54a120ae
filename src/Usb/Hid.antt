-- ===== src/Usb/Hid.antt =====
-- kernel/usb/classdriver: the drivers of keyboards and mice, over `HIDBaseDriver`. What the driver asks of
-- the device is its reply, and what it tells its observers is a list of notices.
pub mod Keys
mod Tests
use os_jisaku.Prelude.{
  Bool, List, [], false, if◌then◌else◌, ltb, not, suc, true, zero, ℕ, ◌&&◌, ◌+◌, ◌-◌, ◌==◌, ◌||◌,
  ◌∷◌,
}
use os_jisaku.Prelude.Int.{negsuc, pos, pos_part, ℤ}
use os_jisaku.Usb.Codes.{ErrorCode, k_not_implemented, k_success}
use os_jisaku.Usb.Contexts.{EndpointConfig, EndpointType, is_in, k_interrupt}
use os_jisaku.Usb.Descriptors.{DriverKind, keyboard, mouse}
use os_jisaku.Usb.Init.{request_type_of}
use os_jisaku.Usb.Transfer.{SetupData}

pub record HidDriver : Type 0 where
  pub kind : DriverKind
  pub interface_index : ℕ
  pub in_packet_size : ℕ
  pub ep_interrupt_in : ℕ
  pub ep_interrupt_out : ℕ
  pub initialize_phase : ℕ
  pub previous_buf : ℕ → ℕ

-- `kBufferSize`.
abbrev pub k_buffer_size : ℕ
k_buffer_size = 1024

-- `HIDKeyboardDriver` and `HIDMouseDriver`.
abbrev pub packet_size : DriverKind → ℕ
packet_size keyboard = 8
packet_size mouse = 3

abbrev pub new_hid_driver : DriverKind → ℕ → HidDriver
new_hid_driver kind interface_index = record {
  kind = kind;
  interface_index = interface_index;
  in_packet_size = packet_size kind;
  ep_interrupt_in = 0;
  ep_interrupt_out = 0;
  initialize_phase = 0;
  previous_buf = λ i. 0;
}

pub data HidReply : Type 0 where
  hid_error : ErrorCode → HidReply
  hid_control_out : SetupData → HidReply
  -- The endpoint and the size of an `InterruptIn`.
  hid_interrupt_in : ℕ → ℕ → HidReply

pub data Notice : Type 0 where
  key_push : ℕ → Notice
  mouse_move : ℕ → ℤ → ℤ → Notice

abbrev pub is_interrupt : EndpointType → Bool
is_interrupt k_interrupt = true
is_interrupt _ = false

unfoldable pub set_endpoint : EndpointConfig → HidDriver → ErrorCode × HidDriver
set_endpoint config d =
    if is_interrupt config.ep_type && is_in config.ep_id
    then (k_success, record d { ep_interrupt_in = config.ep_id })
    else if is_interrupt config.ep_type && not (is_in config.ep_id)
    then (k_success, record d { ep_interrupt_out = config.ep_id })
    else (k_success, d)

-- The request for the boot protocol.
unfoldable pub set_protocol : ℕ → SetupData
set_protocol interface_index = record {
  request_type = request_type_of 1 1 0;
  request = 11;
  value = 0;
  index = interface_index;
  length = 0;
}

unfoldable pub on_endpoints_configured : HidDriver → HidReply × HidDriver
on_endpoints_configured d =
    (hid_control_out (set_protocol d.interface_index), record d { initialize_phase = 1 })

unfoldable pub on_control_completed : HidDriver → HidReply × HidDriver
on_control_completed d =
    if d.initialize_phase == 1
    then (hid_interrupt_in d.ep_interrupt_in d.in_packet_size, record d { initialize_phase = 2 })
    else (hid_error k_not_implemented, d)

-- `std::find` over the first `n` bytes.
unfoldable pub contains : ℕ → (ℕ → ℕ) → ℕ → Bool
contains zero bytes key = false
contains (suc n) bytes key = contains n bytes key || bytes n == key

-- The loop of the keyboard's `OnDataReceived`, for `left` bytes from `i` on.
unfoldable pub pushed_keys : ℕ → ℕ → (ℕ → ℕ) → (ℕ → ℕ) → List Notice
pushed_keys zero i buf previous = []
pushed_keys (suc left) i buf previous =
    let rest = pushed_keys left (i + 1) buf previous in
    if buf i == 0
    then rest
    else if contains k_buffer_size previous (buf i)
    then rest
    else key_push (buf i) ∷ rest

-- A byte as an `int8_t`.
abbrev pub signed_byte : ℕ → ℤ
signed_byte b = if ltb b 128 then pos b else negsuc (255 - b)

-- The mouse's `OnDataReceived`.
abbrev pub mouse_data_received : (ℕ → ℕ) → List Notice
mouse_data_received buf = mouse_move (buf 0) (signed_byte (buf 1)) (signed_byte (buf 2)) ∷ []

unfoldable pub on_data_received : DriverKind → (ℕ → ℕ) → (ℕ → ℕ) → List Notice
on_data_received keyboard buf previous = pushed_keys 6 2 buf previous
on_data_received mouse buf previous = mouse_data_received buf

-- `OnInterruptCompleted`, with what the device has put in `buf_`.
unfoldable pub on_interrupt_completed :
    ℕ → (ℕ → ℕ) → ℤ → HidDriver → List Notice × HidReply × HidDriver
on_interrupt_completed ep_id buf len d =
    if is_in ep_id
    then (
      on_data_received d.kind buf d.previous_buf,
      hid_interrupt_in d.ep_interrupt_in d.in_packet_size,
      record d { previous_buf = λ i. if ltb i (pos_part len) then buf i else d.previous_buf i },
    )
    else ([], hid_error k_not_implemented, d)
