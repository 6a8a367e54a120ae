-- ===== src/Usb/Registers.antt =====
-- kernel/usb/interface/usb/xhci/registers.hpp: the layouts of the registers, as widths of bit fields from
-- the lowest bit up, unnamed fields included. A register is the number in its `data`.
pub mod Pointers
pub mod PortStatus
pub mod Tests
use os_jisaku.Prelude.{List, [], if◌then◌else◌, ltb, ℕ, ◌%◌, ◌*◌, ◌+◌, ◌-◌, ◌/◌, ◌^◌, ◌∷◌}
use os_jisaku.Prelude.Bits.Fields.{get_field, set_field}

-- The unions of the file.
pub data Register : Type 0 where
  hcsparams1 hcsparams2 hcsparams3 hccparams1 dboff rtsoff hccparams2 : Register
  usbcmd usbsts crcr dcbaap config : Register
  portsc portpmsc portli porthlpmc : Register
  iman imod erstsz erstba erdp : Register
  doorbell extended_register usblegsup : Register

abbrev pub hcsparams1_layout : List ℕ
hcsparams1_layout = 8 ∷ 11 ∷ 5 ∷ 8 ∷ []

abbrev pub hcsparams2_layout : List ℕ
hcsparams2_layout = 4 ∷ 4 ∷ 13 ∷ 5 ∷ 1 ∷ 5 ∷ []

abbrev pub hcsparams3_layout : List ℕ
hcsparams3_layout = 8 ∷ 8 ∷ 16 ∷ []

abbrev pub hccparams1_layout : List ℕ
hccparams1_layout = 1 ∷ 1 ∷ 1 ∷ 1 ∷ 1 ∷ 1 ∷ 1 ∷ 1 ∷ 1 ∷ 1 ∷ 1 ∷ 1 ∷ 4 ∷ 16 ∷ []

abbrev pub dboff_layout : List ℕ
dboff_layout = 2 ∷ 30 ∷ []

abbrev pub rtsoff_layout : List ℕ
rtsoff_layout = 5 ∷ 27 ∷ []

abbrev pub hccparams2_layout : List ℕ
hccparams2_layout = 1 ∷ 1 ∷ 1 ∷ 1 ∷ 1 ∷ 1 ∷ 26 ∷ []

abbrev pub usbcmd_layout : List ℕ
usbcmd_layout = 1 ∷ 1 ∷ 1 ∷ 1 ∷ 3 ∷ 1 ∷ 1 ∷ 1 ∷ 1 ∷ 1 ∷ 1 ∷ 1 ∷ 18 ∷ []

abbrev pub usbsts_layout : List ℕ
usbsts_layout = 1 ∷ 1 ∷ 1 ∷ 1 ∷ 1 ∷ 3 ∷ 1 ∷ 1 ∷ 1 ∷ 1 ∷ 1 ∷ 19 ∷ []

abbrev pub crcr_layout : List ℕ
crcr_layout = 1 ∷ 1 ∷ 1 ∷ 1 ∷ 2 ∷ 58 ∷ []

abbrev pub dcbaap_layout : List ℕ
dcbaap_layout = 6 ∷ 26 ∷ []

abbrev pub config_layout : List ℕ
config_layout = 8 ∷ 1 ∷ 1 ∷ 22 ∷ []

abbrev pub portsc_layout : List ℕ
portsc_layout =
    1 ∷ 1 ∷ 1 ∷ 1 ∷ 1 ∷ 4 ∷ 1 ∷ 4 ∷ 2 ∷ 1 ∷ 1 ∷ 1 ∷ 1 ∷ 1 ∷ 1 ∷ 1 ∷ 1 ∷ 1 ∷ 1 ∷ 1 ∷ 1 ∷ 2 ∷ 1 ∷ 1
    ∷ []

abbrev pub portpmsc_layout : List ℕ
portpmsc_layout = 8 ∷ 8 ∷ 1 ∷ 15 ∷ []

abbrev pub portli_layout : List ℕ
portli_layout = 16 ∷ 4 ∷ 4 ∷ 8 ∷ []

abbrev pub porthlpmc_layout : List ℕ
porthlpmc_layout = 2 ∷ 8 ∷ 4 ∷ 18 ∷ []

abbrev pub iman_layout : List ℕ
iman_layout = 1 ∷ 1 ∷ 30 ∷ []

abbrev pub imod_layout : List ℕ
imod_layout = 16 ∷ 16 ∷ []

abbrev pub erstsz_layout : List ℕ
erstsz_layout = 16 ∷ 16 ∷ []

abbrev pub erstba_layout : List ℕ
erstba_layout = 6 ∷ 58 ∷ []

abbrev pub erdp_layout : List ℕ
erdp_layout = 3 ∷ 1 ∷ 60 ∷ []

abbrev pub doorbell_layout : List ℕ
doorbell_layout = 8 ∷ 8 ∷ 16 ∷ []

abbrev pub extended_register_layout : List ℕ
extended_register_layout = 8 ∷ 8 ∷ 16 ∷ []

abbrev pub usblegsup_layout : List ℕ
usblegsup_layout = 8 ∷ 8 ∷ 1 ∷ 7 ∷ 1 ∷ 7 ∷ []

abbrev pub register_layout : Register → List ℕ
register_layout hcsparams1 = hcsparams1_layout
register_layout hcsparams2 = hcsparams2_layout
register_layout hcsparams3 = hcsparams3_layout
register_layout hccparams1 = hccparams1_layout
register_layout dboff = dboff_layout
register_layout rtsoff = rtsoff_layout
register_layout hccparams2 = hccparams2_layout
register_layout usbcmd = usbcmd_layout
register_layout usbsts = usbsts_layout
register_layout crcr = crcr_layout
register_layout dcbaap = dcbaap_layout
register_layout config = config_layout
register_layout portsc = portsc_layout
register_layout portpmsc = portpmsc_layout
register_layout portli = portli_layout
register_layout porthlpmc = porthlpmc_layout
register_layout iman = iman_layout
register_layout imod = imod_layout
register_layout erstsz = erstsz_layout
register_layout erstba = erstba_layout
register_layout erdp = erdp_layout
register_layout doorbell = doorbell_layout
register_layout extended_register = extended_register_layout
register_layout usblegsup = usblegsup_layout

-- The bits of `data`.
abbrev pub register_bits : Register → ℕ
register_bits crcr = 64
register_bits dcbaap = 64
register_bits erstba = 64
register_bits erdp = 64
register_bits _ = 32

-- A field of `bits`, read and written.
unfoldable pub field : Register → ℕ → ℕ → ℕ
field r i value = get_field (register_layout r) i value

unfoldable pub with_field : Register → ℕ → ℕ → ℕ → ℕ
with_field r i v value = set_field (register_layout r) i v value

-- The registers with `Pointer` and `SetPointer`.
pub data PointerRegister : Type 0 where
  command_ring contexts segment_table dequeue : PointerRegister

abbrev pub register_of : PointerRegister → Register
register_of command_ring = crcr
register_of contexts = dcbaap
register_of segment_table = erstba
register_of dequeue = erdp

-- The position of the pointer's field, and the bits of an address below it.
abbrev pub pointer_field : PointerRegister → ℕ
pointer_field command_ring = 5
pointer_field contexts = 1
pointer_field segment_table = 1
pointer_field dequeue = 2

abbrev pub pointer_shift : PointerRegister → ℕ
pointer_shift command_ring = 6
pointer_shift contexts = 6
pointer_shift segment_table = 6
pointer_shift dequeue = 4

-- An `int` of 32 bits, given by its bits, as a number of 64 bits.
abbrev pub sign_extended : ℕ → ℕ
sign_extended bits = if ltb bits (2 ^ 31) then bits else bits + (2 ^ 64 - 2 ^ 32)

-- `Pointer`. A field of 58 or 60 bits is shifted in 64 bits; the 26 bits of the one of DCBAAP are promoted
-- to `int` for the shift, and the result is extended by its sign.
unfoldable pub register_pointer : PointerRegister → ℕ → ℕ
unfolding field
register_pointer contexts value =
    sign_extended
      (field dcbaap (pointer_field contexts) value * 2 ^ pointer_shift contexts % 2 ^ 32)
register_pointer command_ring value =
    field crcr (pointer_field command_ring) value * 2 ^ pointer_shift command_ring % 2 ^ 64
register_pointer segment_table value =
    field erstba (pointer_field segment_table) value * 2 ^ pointer_shift segment_table % 2 ^ 64
register_pointer dequeue value =
    field erdp (pointer_field dequeue) value * 2 ^ pointer_shift dequeue % 2 ^ 64

-- `SetPointer`.
unfoldable pub set_register_pointer : PointerRegister → ℕ → ℕ → ℕ
unfolding with_field
set_register_pointer r address value =
    with_field (register_of r) (pointer_field r) (address / 2 ^ pointer_shift r) value

-- `DoorbellRegister::Ring`: the value that is written.
unfoldable pub doorbell_value : ℕ → ℕ → ℕ
unfolding with_field
doorbell_value target stream_id = with_field doorbell 2 stream_id (with_field doorbell 0 target 0)

-- `Offset` of `DBOFF_Bitmap` and of `RTSOFF_Bitmap`, in 32 bits.
unfoldable pub doorbell_offset : ℕ → ℕ
unfolding field
doorbell_offset value = field dboff 1 value * 2 ^ 2 % 2 ^ 32

unfoldable pub runtime_offset : ℕ → ℕ
unfolding field
runtime_offset value = field rtsoff 1 value * 2 ^ 5 % 2 ^ 32
