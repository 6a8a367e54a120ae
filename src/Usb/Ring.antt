-- ===== src/Usb/Ring.antt =====
-- kernel/usb/xhci/ring.cpp and kernel/usb/interface/usb/xhci/ring.hpp: the command and transfer rings.
-- A ring's memory is a function of the index.
pub mod Cycle
pub mod Push
pub mod Links
pub mod Reader
use os_jisaku.Prelude.{bit_and, bit_or, if◌then◌else◌, ℕ, ◌+◌, ◌-◌, ◌==◌, ◌^◌}
use os_jisaku.Usb.Trb.{Trb, link, new_link, with_control}

pub record Ring : Type 0 where
  pub buf : ℕ → Trb
  pub buf_address : ℕ
  pub buf_size : ℕ
  pub cycle : ℕ
  pub write_index : ℕ

-- `Initialize`, with the memory that the pool gives.
unfoldable pub initialize : ℕ → ℕ → Ring
initialize buf_address buf_size = record {
  buf = λ i. record { parameter = 0; status = 0; control = 0 };
  buf_address = buf_address;
  buf_size = buf_size;
  cycle = 1;
  write_index = 0;
}

-- The words that `CopyToLast` writes.
unfoldable pub with_cycle : ℕ → Trb → Trb
with_cycle c t = record t { control = bit_or (bit_and t.control (2 ^ 32 - 2)) c }

unfoldable pub copy_to_last : Trb → Ring → Ring
copy_to_last t r = record r {
  buf = λ i. if i == r.write_index then with_cycle r.cycle t else r.buf i;
}

-- The link block that `Push` puts in the last place.
unfoldable pub toggling_link : ℕ → Trb
toggling_link p = with_control link 1 1 (new_link p)

-- `Push`. The block is at the index that it returns.
unfoldable pub push : Trb → Ring → ℕ × Ring
unfolding copy_to_last
push t r =
    let written = copy_to_last t r in
    let next = record written { write_index = r.write_index + 1 } in
    if next.write_index == r.buf_size - 1
    then (
      r.write_index,
      record (copy_to_last (toggling_link r.buf_address) next) {
        write_index = 0;
        cycle = 1 - r.cycle;
      },
    )
    else (r.write_index, next)
