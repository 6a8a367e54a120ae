-- ===== src/Usb/Ring/Reader.antt =====
-- The other end of a command or transfer ring, as the xHCI specification describes the controller's
-- reading: it follows the cycle bits, and a link block back to the start.
pub mod Queue
pub mod Pushes
pub mod Refinement
use os_jisaku.Prelude.{
  List, Option, [], if◌then◌else◌, none, some, suc, zero, ℕ, ◌&&◌, ◌++◌, ◌+◌, ◌-◌, ◌/◌, ◌<◌, ◌==◌,
  ◌∷◌, ◌≡◌, ◌≤◌, ◌⊎◌,
}
use os_jisaku.Usb.Ring.{Ring}
use os_jisaku.Usb.Trb.{Trb, control_field, cycle_bit, link, pointer, trb_type, type_of}

pub record Reader : Type 0 where
  pub index : ℕ
  pub state : ℕ

abbrev pub first_reader : Reader
first_reader = record { index = 0; state = 1 }

-- Past a link block that is the reader's, to its target, which here is an index of the same ring.
unfoldable pub follow : Ring → Reader → Reader
follow r d =
    if (trb_type (r.buf d.index) == type_of link) && (cycle_bit (r.buf d.index) == d.state)
    then record {
      index = (pointer (r.buf d.index) - r.buf_address) / 16;
      state = if control_field link 1 (r.buf d.index) == 1 then 1 - d.state else d.state;
    }
    else d

-- The next block, where there is one.
unfoldable pub read : Ring → Reader → Option (Trb × Reader)
read r d =
    if cycle_bit (r.buf d.index) == d.state
    then some (r.buf d.index, follow r (record { index = d.index + 1; state = d.state }))
    else none

-- `n` blocks from an index on.
abbrev pub slots : (ℕ → Trb) → ℕ → ℕ → List Trb
slots buf i zero = []
slots buf i (suc n) = buf i ∷ slots buf (i + 1) n

-- The blocks that a reader has not read: those up to the write index, or, where the ring has turned
-- round since, those to the end and from the start.
unfoldable pub pending : Ring → Reader → List Trb
pending r d =
    if d.state == r.cycle
    then slots r.buf d.index (r.write_index - d.index)
    else slots r.buf d.index (r.buf_size - 1 - d.index) ++ slots r.buf 0 r.write_index

-- The last place holds a link to the start, of the lap before this one.
pub record IsLinked (r : Ring) : Type 0 where
  pub link_type : trb_type (r.buf (r.buf_size - 1)) ≡ type_of link
  pub link_cycle : cycle_bit (r.buf (r.buf_size - 1)) ≡ 1 - r.cycle
  pub link_toggles : control_field link 1 (r.buf (r.buf_size - 1)) ≡ 1
  pub link_target : pointer (r.buf (r.buf_size - 1)) ≡ r.buf_address

-- A reader on the producer's lap, or on the one before.
abbrev pub IsReader : Ring → Reader → Type 0
IsReader r d =
    ((d.state ≡ r.cycle) × (d.index ≤ r.write_index))
    ⊎ (d.state ≡ 1 - r.cycle) × (r.write_index ≤ d.index) × (d.index + 1 < r.buf_size) × IsLinked r
