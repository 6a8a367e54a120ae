-- ===== src/Usb/EventRing.antt =====
-- kernel/usb/xhci/ring.cpp and kernel/usb/interface/usb/xhci/ring.hpp: the event ring. The dequeue pointer of
-- the interrupter is the index of a block in the one segment.
use os_jisaku.Prelude.{Bool, arith, if◌then◌else◌, ℕ, ◌+◌, ◌-◌, ◌<◌, ◌==◌}
use os_jisaku.Usb.Trb.{Trb, cycle_bit}

pub record EventRing : Type 0 where
  pub segment : ℕ → Trb
  pub ring_segment_size : ℕ
  pub dequeue_index : ℕ
  pub event_cycle : ℕ

-- `Front` and `HasFront`.
abbrev pub front : EventRing → Trb
front r = r.segment r.dequeue_index

unfoldable pub has_front : EventRing → Bool
has_front r = cycle_bit (front r) == r.event_cycle

unfoldable pub pop : EventRing → EventRing
pop r =
    if r.dequeue_index + 1 == r.ring_segment_size
    then record r { dequeue_index = 0; event_cycle = 1 - r.event_cycle }
    else record r { dequeue_index = r.dequeue_index + 1 }

-- A pop stays in the segment.
pub pop-bound :
    (r : EventRing)
    → r.dequeue_index < r.ring_segment_size
    → (pop r).dequeue_index < (pop r).ring_segment_size
unfolding pop
pop-bound r h = ground arith
