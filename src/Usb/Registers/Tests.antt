-- ===== src/Usb/Registers/Tests.antt =====
-- Runs of the registers: the pointer of DCBAAP, and the writes to PORTSC.
use os_jisaku.Prelude.{arith, refl, true, ℕ, ◌<◌, ◌^◌, ◌≡◌, ◌≢◌}
use os_jisaku.Usb.Registers.{
  contexts, dcbaap, dequeue, doorbell_offset, doorbell_value, field, portsc, register_pointer,
  runtime_offset, set_register_pointer,
}
use os_jisaku.Usb.Registers.Pointers.{set_register_pointer-keeps}
use os_jisaku.Usb.Registers.PortStatus.{
  clear_connect_status_changed, clear_port_reset_change, is_connect_status_changed, is_connected,
  is_enabled, is_port_reset_changed, port_write, port_write-fields, reset, speed,
}
use os_jisaku.Prelude.Bits.Fields.{get_field, set_field}

-- An address above 4 GiB loses its high bits in DCBAAP, and only there; the sign of 32 bits is extended.
contexts_above_4gib :
    register_pointer contexts (set_register_pointer contexts 0x100002000 0) ≡ 0x2000
unfolding register_pointer set_register_pointer get_field set_field
contexts_above_4gib = refl

contexts_above_2gib :
    register_pointer contexts (set_register_pointer contexts 0x80000000 0) ≡ 0xffffffff80000000
unfolding register_pointer set_register_pointer get_field set_field
contexts_above_2gib = refl

dequeue_above_4gib :
    register_pointer dequeue (set_register_pointer dequeue 0x100002000 8) ≡ 0x100002000
unfolding register_pointer set_register_pointer get_field set_field
dequeue_above_4gib = refl

doorbell_of_target_3 : doorbell_value 3 5 ≡ 0x50003
unfolding doorbell_value get_field set_field
doorbell_of_target_3 = refl

offsets : (doorbell_offset 0x3003 ≡ 0x3000) × (runtime_offset 0x201f ≡ 0x2000)
unfolding doorbell_offset runtime_offset get_field set_field
offsets = (refl, refl)

-- A connected, enabled port of speed 3 with its power on and two changes.
abbrev status : ℕ
status = 0x00220e03

port_shown :
    (is_connected status ≡ true)
    × (is_enabled status ≡ true)
    × (is_connect_status_changed status ≡ true)
    × (is_port_reset_changed status ≡ true)
    × (speed status ≡ 3)
unfolding is_connected is_enabled is_connect_status_changed is_port_reset_changed speed get_field
    set_field
port_shown = (refl, refl, refl, refl, refl)

port_written :
    (port_write reset status ≡ 0x00020210)
    × (port_write clear_connect_status_changed status ≡ 0x00020200)
    × (port_write clear_port_reset_change status ≡ 0x00200200)
unfolding port_write set_field
port_written = (refl, refl, refl)

port_write-fields_example : field portsc 14 (port_write clear_connect_status_changed status) ≡ 0
port_write-fields_example = port_write-fields clear_connect_status_changed 14 status (omega arith)

set_register_pointer-keeps_example :
    (register_pointer contexts (set_register_pointer contexts 0x100002000 0) ≡ 0x2000)
    × (0x100002000 < 2 ^ 31
        → register_pointer contexts (set_register_pointer contexts 0x100002000 0) ≡ 0x100002000)
    × ((j : ℕ)
        → j ≢ 1
        → field dcbaap j (set_register_pointer contexts 0x100002000 0) ≡ field dcbaap j 0)
set_register_pointer-keeps_example =
    set_register_pointer-keeps contexts 0x100002000 0 refl (omega arith)
