-- ===== src/Usb/Ring/Cycle.antt =====
-- kernel/usb/xhci/ring.cpp: where the cycle bits of a ring stand.
use os_jisaku.Prelude.{
  ==→≡, Bool-cases, arith, false, inl, inr, true, ℕ, ◌+◌, ◌-◌, ◌<◌, ◌==◌, ◌^◌, ◌∙◌, ◌≡◌, ◌≢◌, ◌≤◌,
}
use os_jisaku.Prelude.Bits.Fields.{get_field}
use os_jisaku.Prelude.Bits.Masks.{replace_lowest}
use os_jisaku.Usb.Ring.{Ring, copy_to_last, initialize, push, toggling_link, with_cycle}
use os_jisaku.Usb.Trb.{Trb, cycle_bit, link, trb_type, type_of}

-- The mask and the bit that `CopyToLast` uses are the writing of a field.
pub cycle_bit-with_cycle : (c : ℕ) (t : Trb) → c < 2 → cycle_bit (with_cycle c t) ≡ c
unfolding cycle_bit with_cycle get_field
cycle_bit-with_cycle c t h = rw (replace_lowest t.control c h) (omega arith)

pub trb_type-with_cycle :
    (c : ℕ) (t : Trb) → t.control < 2 ^ 32 → c < 2 → trb_type (with_cycle c t) ≡ trb_type t
unfolding trb_type with_cycle get_field
trb_type-with_cycle c t h l = rw (replace_lowest t.control c l) (omega arith)

-- The cycle bits up to the write index are the ring's, and those after it the other one, up to the last
-- place, which is the link's. No other block is a link.
pub record IsCycled (r : Ring) : Type 0 where
  pub index_bound : r.write_index + 1 < r.buf_size
  pub cycle_bound : r.cycle < 2
  pub written : (i : ℕ) → i < r.write_index → cycle_bit (r.buf i) ≡ r.cycle
  pub stale : (i : ℕ) → r.write_index ≤ i → i + 1 < r.buf_size → cycle_bit (r.buf i) ≡ 1 - r.cycle
  pub no_links : (i : ℕ) → i + 1 < r.buf_size → trb_type (r.buf i) ≢ type_of link

-- A block that `Push` can be given: a 32-bit word, and no link.
pub record IsPushable (t : Trb) : Type 0 where
  pub word : t.control < 2 ^ 32
  pub no_link : trb_type t ≢ type_of link

-- A new ring of two places or more.
pub initialize-IsCycled :
    (buf_address buf_size : ℕ) → 1 < buf_size → IsCycled (initialize buf_address buf_size)
unfolding initialize cycle_bit trb_type get_field
initialize-IsCycled buf_address buf_size h = ground arith

pub push-next :
    (t : Trb) (r : Ring)
    → r.write_index + 2 < r.buf_size
    → (push t r).1 ≡ record (copy_to_last t r) { write_index = r.write_index + 1 }
unfolding push
push-next t r h = let f : (r.write_index + 1 == r.buf_size - 1) ≡ false = ground arith in rw f

pub push-wrap :
    (t : Trb) (r : Ring)
    → r.write_index + 2 ≡ r.buf_size
    → (push t r).1
      ≡ record (copy_to_last
          (toggling_link r.buf_address)
          (record (copy_to_last t r) { write_index = r.write_index + 1 })) {
            write_index = 0;
            cycle = 1 - r.cycle;
          }
unfolding push
push-wrap t r h = let f : (r.write_index + 1 == r.buf_size - 1) ≡ true = ground arith in rw f

-- The block is at the write index.
pub push-index : (t : Trb) (r : Ring) → (push t r).0 ≡ r.write_index
unfolding push
push-index t r = elim (Bool-cases (r.write_index + 1 == r.buf_size - 1)) [
  | inl e ↦ rw e
  | inr f ↦ rw f
]

-- What `CopyToLast` leaves in each place.
pub copied_self : (t : Trb) (r : Ring) → (copy_to_last t r).buf r.write_index ≡ with_cycle r.cycle t
unfolding copy_to_last
copied_self t r = ground arith

pub copied_ne :
    (t : Trb) (r : Ring) (i : ℕ) → i ≢ r.write_index → (copy_to_last t r).buf i ≡ r.buf i
unfolding copy_to_last
copied_ne t r i ne = ground arith

-- The blocks that a push writes below the last place: the one pushed, at the write index.
pub push-buf_self :
    (t : Trb) (r : Ring) → IsCycled r → (push t r).1.buf r.write_index ≡ with_cycle r.cycle t
push-buf_self t r h = elim (Bool-cases (r.write_index + 2 == r.buf_size)) [
  | inl e ↦
      rw (push-wrap t r (==→≡ _ _ e)) (copied_ne _ _ r.write_index (omega arith) ∙ copied_self t r)
  | inr f ↦ rw (push-next t r (ground (arith, h.index_bound))) (copied_self t r)
]

pub push-buf_ne :
    (t : Trb) (r : Ring) (i : ℕ)
    → IsCycled r
    → i ≢ r.write_index
    → i + 1 < r.buf_size
    → (push t r).1.buf i ≡ r.buf i
push-buf_ne t r i h ne lt = elim (Bool-cases (r.write_index + 2 == r.buf_size)) [
  | inl e ↦
      rw (push-wrap t r (==→≡ _ _ e))
        (copied_ne _ _ i (ground (arith, ==→≡ _ _ e)) ∙ copied_ne t r i ne)
  | inr f ↦ rw (push-next t r (ground (arith, h.index_bound))) (copied_ne t r i ne)
]
