-- ===== src/Usb/Transfer/Started.antt =====
-- kernel/usb/xhci/device.cpp: where the blocks of a control transfer stand in the ring.
use os_jisaku.Graphics.Geometry.{size}
use os_jisaku.Prelude.{arith, inl, inr, sym, ℕ, ◌<◌, ◌∙◌, ◌≡◌, ◌≢◌}
use os_jisaku.Usb.Ring.{Ring, push, with_cycle}
use os_jisaku.Usb.Ring.Cycle.{IsCycled, IsPushable, push-buf_ne, push-buf_self, push-index}
use os_jisaku.Usb.Ring.Push.{push-IsCycled, push-fields}
use os_jisaku.Usb.Transfer.{block_address, push_with_data, push_without_data}
use os_jisaku.Usb.Trb.{Trb}

-- The setup stage and the block that completes the transfer are in the ring, apart from the cycle bits.
pub record IsStarted (setup completing : Trb) (r : Ring) (result : (ℕ × ℕ) × Ring) : Type 0 where
  pub setup_index : ℕ
  pub completing_index : ℕ
  pub setup_cycle : ℕ
  pub completing_cycle : ℕ
  pub setup_below : setup_index < result.1.buf_size
  pub completing_below : completing_index < result.1.buf_size
  pub setup_at : result.0.1 ≡ block_address result.1 setup_index
  pub completing_at : result.0.0 ≡ block_address result.1 completing_index
  pub setup_block : result.1.buf setup_index ≡ with_cycle setup_cycle setup
  pub completing_block : result.1.buf completing_index ≡ with_cycle completing_cycle completing
  pub completing_cycle_bound : completing_cycle < 2

-- The next write index differs from this one, and so does the one after it, in four places or more.
next_index :
    (t : Trb) (r : Ring) → IsCycled r → 3 < r.buf_size → (push t r).1.write_index ≢ r.write_index
next_index t r h size e =
    let (b, a, o) = push-fields t r h in
    elim o [ inl (lt, w, c) ↦ omega arith | inr (lt, w, c) ↦ omega arith ]

index_after_next :
    (t u : Trb) (r : Ring)
    → IsCycled r
    → IsPushable t
    → 3 < r.buf_size
    → (push u (push t r).1).1.write_index ≢ r.write_index
index_after_next t u r h p size e =
    let (b, a, o) = push-fields t r h in
    let (b', a', o') = push-fields u (push t r).1 (push-IsCycled t r h p) in
    elim o [
      | inl (lt, w, c) ↦ elim o' [
        | inl (lt', w', c') ↦ omega arith
        | inr (lt', w', c') ↦ omega arith
      ]
      | inr (lt, w, c) ↦ elim o' [
        | inl (lt', w', c') ↦ omega arith
        | inr (lt', w', c') ↦ omega arith
      ]
    ]

pub push_without_data-IsStarted :
    (setup status : Trb) (r : Ring)
    → IsCycled r
    → IsPushable setup
    → IsPushable status
    → 3 < r.buf_size
    → IsStarted setup status r (push_without_data setup status r)
unfolding push_without_data
push_without_data-IsStarted setup status r h p q size =
    let r1 = (push setup r).1 in
    let h1 = push-IsCycled setup r h p in
    let (b, a, o) = push-fields setup r h in
    let (b', a', o') = push-fields status r1 h1 in
    record {
      setup_index = r.write_index;
      completing_index = r1.write_index;
      setup_cycle = r.cycle;
      completing_cycle = r1.cycle;
      setup_below = omega (arith, h.index_bound);
      completing_below = omega (arith, h1.index_bound);
      setup_at = omega (arith, push-index setup r, a, a');
      completing_at = omega (arith, push-index status r1, a, a');
      setup_block =
          push-buf_ne status r1 r.write_index h1 (λ e. next_index setup r h size (sym e))
            (omega (arith, h.index_bound))
          ∙ push-buf_self setup r h;
      completing_block = push-buf_self status r1 h1;
      completing_cycle_bound = h1.cycle_bound;
    }

pub push_with_data-IsStarted :
    (setup data_trb status : Trb) (r : Ring)
    → IsCycled r
    → IsPushable setup
    → IsPushable data_trb
    → 3 < r.buf_size
    → IsStarted setup data_trb r (push_with_data setup data_trb status r)
unfolding push_with_data
push_with_data-IsStarted setup data_trb status r h p q size =
    let r1 = (push setup r).1 in
    let h1 = push-IsCycled setup r h p in
    let (b, a, o) = push-fields setup r h in
    let r2 = (push data_trb r1).1 in
    let h2 = push-IsCycled data_trb r1 h1 q in
    let (b', a', o') = push-fields data_trb r1 h1 in
    let (c, d, o2) = push-fields status r2 h2 in
    record {
      setup_index = r.write_index;
      completing_index = r1.write_index;
      setup_cycle = r.cycle;
      completing_cycle = r1.cycle;
      setup_below = omega (arith, h.index_bound);
      completing_below = omega (arith, h1.index_bound);
      setup_at = omega (arith, push-index setup r, a, a', d);
      completing_at = omega (arith, push-index data_trb r1, a, a', d);
      setup_block =
          push-buf_ne status r2 r.write_index h2
            (λ e. index_after_next setup data_trb r h p size (sym e)) (omega (arith, h.index_bound))
          ∙ push-buf_ne data_trb r1 r.write_index h1 (λ e. next_index setup r h size (sym e))
              (omega (arith, h.index_bound))
          ∙ push-buf_self setup r h;
      completing_block =
          push-buf_ne status r2 r1.write_index h2
            (λ e. next_index data_trb r1 h1 (rw b size) (sym e)) (omega (arith, h1.index_bound))
          ∙ push-buf_self data_trb r1 h1;
      completing_cycle_bound = h1.cycle_bound;
    }
