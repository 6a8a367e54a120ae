-- ===== src/Usb/Ring/Push.antt =====
-- kernel/usb/xhci/ring.cpp: a push keeps the cycle bits in order, and the link behind them.
use os_jisaku.Prelude.{
  ==→≡, ==→≢, Bool-cases, arith, inl, inr, refl, ℕ, ◌+◌, ◌-◌, ◌<◌, ◌==◌, ◌≡◌, ◌≢◌, ◌≤◌, ◌⊎◌,
}
use os_jisaku.Usb.Ring.{Ring, copy_to_last, push, with_cycle}
use os_jisaku.Usb.Ring.Cycle.{
  IsCycled, IsPushable, cycle_bit-with_cycle, push-buf_ne, push-buf_self, push-next, push-wrap,
  trb_type-with_cycle,
}
use os_jisaku.Usb.Trb.{Trb, cycle_bit, link, trb_type, type_of}

-- The block pushed, as it stands in the ring.
pushed-no_link :
    (t : Trb) (r : Ring)
    → IsCycled r
    → IsPushable t
    → trb_type (with_cycle r.cycle t) ≢ type_of link
pushed-no_link t r h p = rw (trb_type-with_cycle r.cycle t p.word h.cycle_bound) p.no_link

-- The places below the last one, after a push.
places_after :
    (t : Trb) (r : Ring) (i : ℕ)
    → IsCycled r
    → i + 1 < r.buf_size
    → ((i ≡ r.write_index) × ((push t r).1.buf i ≡ with_cycle r.cycle t))
      ⊎ ((i ≢ r.write_index) × ((push t r).1.buf i ≡ r.buf i))
places_after t r i h lt = elim (Bool-cases (i == r.write_index)) [
  | inl e ↦ inl (==→≡ _ _ e, rw (==→≡ _ _ e) (push-buf_self t r h))
  | inr f ↦ inr (==→≢ _ _ f, push-buf_ne t r i h (==→≢ _ _ f) lt)
]

no_links_after :
    (t : Trb) (r : Ring) (i : ℕ)
    → IsCycled r
    → IsPushable t
    → i + 1 < r.buf_size
    → trb_type ((push t r).1.buf i) ≢ type_of link
no_links_after t r i h p lt = elim (places_after t r i h lt) [
  | inl (e, b) ↦ rw b (pushed-no_link t r h p)
  | inr (ne, b) ↦ rw b (h.no_links i lt)
]

-- Up to and with the write index, the pushed ring has the old cycle.
written_after :
    (t : Trb) (r : Ring) (i : ℕ)
    → IsCycled r
    → i ≤ r.write_index
    → cycle_bit ((push t r).1.buf i) ≡ r.cycle
written_after t r i h le = elim (places_after t r i h (omega (arith, h.index_bound))) [
  | inl (e, b) ↦ rw b (cycle_bit-with_cycle r.cycle t h.cycle_bound)
  | inr (ne, b) ↦ rw b (h.written i (omega arith))
]

stale_after :
    (t : Trb) (r : Ring) (i : ℕ)
    → IsCycled r
    → r.write_index + 1 ≤ i
    → i + 1 < r.buf_size
    → cycle_bit ((push t r).1.buf i) ≡ 1 - r.cycle
stale_after t r i h le lt = elim (places_after t r i h lt) [
  | inl (e, b) ↦ absurd (omega arith)
  | inr (ne, b) ↦ rw b (h.stale i (omega arith) lt)
]

-- The fields of the pushed ring, in the two cases of the write index.
pub push-fields :
    (t : Trb) (r : Ring)
    → IsCycled r
    → let s = (push t r).1 in
      (s.buf_size ≡ r.buf_size)
      × (s.buf_address ≡ r.buf_address)
      × ((r.write_index + 2 < r.buf_size)
            × (s.write_index ≡ r.write_index + 1)
            × (s.cycle ≡ r.cycle)
          ⊎ (r.write_index + 2 ≡ r.buf_size) × (s.write_index ≡ 0) × (s.cycle ≡ 1 - r.cycle))
unfolding copy_to_last
push-fields t r h = elim (Bool-cases (r.write_index + 2 == r.buf_size)) [
  | inl e ↦ rw (push-wrap t r (==→≡ _ _ e)) (refl, refl, inr (==→≡ _ _ e, refl, refl))
  | inr f ↦
      let lt : r.write_index + 2 < r.buf_size = ground (arith, h.index_bound) in
      rw (push-next t r lt) (refl, refl, inl (lt, refl, refl))
]

pub push-IsCycled : (t : Trb) (r : Ring) → IsCycled r → IsPushable t → IsCycled (push t r).1
push-IsCycled t r h p =
    let (b, a, o) = push-fields t r h in
    elim o [
      | inl (lt, w, c) ↦ record {
        index_bound = rw (b, w) (omega arith);
        cycle_bound = rw c h.cycle_bound;
        written = λ i l. rw c (written_after t r i h (omega (arith, w)));
        stale = λ i l m. rw c (stale_after t r i h (omega (arith, w)) (omega (arith, b)));
        no_links = λ i l. no_links_after t r i h p (omega (arith, b));
      }
      | inr (e, w, c) ↦ record {
        index_bound = rw (b, w) (omega arith);
        cycle_bound = rw c (omega (arith, h.cycle_bound));
        written = λ i l. absurd (omega (arith, w));
        stale = λ i l m. rw (c, double_flip r h) (written_after t r i h (omega (arith, b)));
        no_links = λ i l. no_links_after t r i h p (omega (arith, b));
      }
    ]
  where
    double_flip : (r : Ring) → IsCycled r → 1 - (1 - r.cycle) ≡ r.cycle
    double_flip r h = omega (arith, h.cycle_bound)
