-- ===== src/Usb/Ring/Links.antt =====
-- kernel/usb/xhci/ring.cpp: the link block that a push leaves at the end of a lap.
use os_jisaku.Prelude.{arith, refl, suc, zero, ℕ, ◌%◌, ◌+◌, ◌-◌, ◌<◌, ◌^◌, ◌≡◌}
use os_jisaku.Prelude.Bits.Fields.{get_field, set_field}
use os_jisaku.Usb.Ring.{Ring, copy_to_last, push, toggling_link, with_cycle}
use os_jisaku.Usb.Ring.Cycle.{
  IsCycled, copied_ne, copied_self, cycle_bit-with_cycle, push-next, push-wrap,
}
use os_jisaku.Usb.Ring.Reader.{IsLinked}
use os_jisaku.Usb.Trb.{
  Trb, control_field, link, new, new_link, pointer, set_pointer, trb_type, type_of, with_control,
}

-- A ring's memory is aligned, in a 64-bit address space.
pub record IsAddress (p : ℕ) : Type 0 where
  pub aligned : p % 16 ≡ 0
  pub in_range : p < 2 ^ 64

toggling_link-facts :
    (p c : ℕ)
    → c < 2
    → (trb_type (with_cycle c (toggling_link p)) ≡ type_of link)
      × (control_field link 1 (with_cycle c (toggling_link p)) ≡ 1)
unfolding trb_type with_cycle toggling_link new_link set_pointer with_control new control_field
    get_field set_field
toggling_link-facts p zero h = (refl, refl)
toggling_link-facts p (suc zero) h = (refl, refl)
toggling_link-facts p (suc (suc c)) h = absurd (omega arith)

-- The target of a link is the address it was made with.
pointer-toggling_link : (p c : ℕ) → IsAddress p → pointer (with_cycle c (toggling_link p)) ≡ p
unfolding pointer with_cycle toggling_link new_link set_pointer with_control new get_field set_field
pointer-toggling_link p c h = omega (arith, h.aligned, h.in_range)

-- After a push that turns the ring round, the last place links to the start.
pub push-IsLinked_wrap :
    (t : Trb) (r : Ring)
    → IsCycled r
    → IsAddress r.buf_address
    → r.write_index + 2 ≡ r.buf_size
    → IsLinked (push t r).1
unfolding copy_to_last
push-IsLinked_wrap t r h a e =
    let facts = toggling_link-facts r.buf_address r.cycle h.cycle_bound in
    let i : r.buf_size - 1 ≡ r.write_index + 1 = omega arith in
    let moved : Ring = record (copy_to_last t r) { write_index = r.write_index + 1 } in
    let b : (copy_to_last (toggling_link r.buf_address) moved).buf (r.buf_size - 1)
        ≡ with_cycle r.cycle (toggling_link r.buf_address) =
      rw i (copied_self (toggling_link r.buf_address) moved) in
    let flip : 1 - (1 - r.cycle) ≡ r.cycle = omega (arith, h.cycle_bound) in
    rw (push-wrap t r e) (record {
      link_type = rw b facts.0;
      link_cycle =
          rw (b, flip) (cycle_bit-with_cycle r.cycle (toggling_link r.buf_address) h.cycle_bound);
      link_toggles = rw b facts.1;
      link_target = rw b (pointer-toggling_link r.buf_address r.cycle a);
    })

-- A push that does not turn the ring round keeps the link.
pub push-IsLinked_next :
    (t : Trb) (r : Ring) → r.write_index + 2 < r.buf_size → IsLinked r → IsLinked (push t r).1
unfolding trb_type get_field copy_to_last
push-IsLinked_next t r lt k =
    let b : (copy_to_last t r).buf (r.buf_size - 1) ≡ r.buf (r.buf_size - 1) =
      copied_ne t r _ (omega arith) in
    rw (push-next t r lt) (record {
      link_type = rw b k.link_type;
      link_cycle = rw b k.link_cycle;
      link_toggles = rw b k.link_toggles;
      link_target = rw b k.link_target;
    })
