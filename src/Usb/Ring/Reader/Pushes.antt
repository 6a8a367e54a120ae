-- ===== src/Usb/Ring/Reader/Pushes.antt =====
-- A push appends its block to what a reader has pending.
use mathlib.Core.List.{append-nil, append_assoc}
use os_jisaku.Prelude.{
  [], arith, inl, inr, length, length-append, suc, sym, ℕ, ◌++◌, ◌+◌, ◌-◌, ◌<◌, ◌∙◌, ◌∷◌, ◌≡◌, ◌≤◌,
}
use os_jisaku.Usb.Ring.{Ring, push, with_cycle}
use os_jisaku.Usb.Ring.Cycle.{IsCycled, push-buf_ne, push-buf_self}
use os_jisaku.Usb.Ring.Links.{IsAddress, push-IsLinked_next, push-IsLinked_wrap}
use os_jisaku.Usb.Ring.Push.{push-fields}
use os_jisaku.Usb.Ring.Reader.{IsLinked, IsReader, Reader, pending, slots}
use os_jisaku.Usb.Ring.Reader.Queue.{
  length-slots, pending-behind, pending-same, slots-ext, slots-snoc,
}
use os_jisaku.Usb.Trb.{Trb}

-- The slots that a push leaves, and the one that it fills.
slots-push :
    (t : Trb) (r : Ring) (i n : ℕ)
    → IsCycled r
    → i + n ≤ r.write_index
    → slots (push t r).1.buf i n ≡ slots r.buf i n
slots-push t r i n h le =
    slots-ext (push t r).1.buf r.buf i n
      (λ j l m. push-buf_ne t r j h (omega arith) (omega (arith, h.index_bound)))

slots-push_high :
    (t : Trb) (r : Ring) (i n : ℕ)
    → IsCycled r
    → r.write_index < i
    → i + n + 1 ≤ r.buf_size
    → slots (push t r).1.buf i n ≡ slots r.buf i n
slots-push_high t r i n h lt le =
    slots-ext (push t r).1.buf r.buf i n (λ j l m. push-buf_ne t r j h (omega arith) (omega arith))

slots-push_end :
    (t : Trb) (r : Ring) (i n : ℕ)
    → IsCycled r
    → i + n ≡ r.write_index
    → slots (push t r).1.buf i (suc n) ≡ slots r.buf i n ++ (with_cycle r.cycle t ∷ [])
slots-push_end t r i n h e =
    rw (slots-snoc (push t r).1.buf i n, slots-push t r i n h (omega arith), e, push-buf_self t r h)

unfoldable pub IsAppended : Trb → Ring → Reader → Type 0
IsAppended t r d =
    (pending (push t r).1 d ≡ pending r d ++ (with_cycle r.cycle t ∷ [])) × IsReader (push t r).1 d

push-IsAppended_same :
    (t : Trb) (r : Ring) (d : Reader)
    → IsCycled r
    → IsAddress r.buf_address
    → d.state ≡ r.cycle
    → d.index ≤ r.write_index
    → IsAppended t r d
unfolding IsAppended
push-IsAppended_same t r d h a e le =
    let (b, a', o) = push-fields t r h in
    elim o [
      | inl (lt, w, c) ↦
          let m : r.write_index + 1 - d.index ≡ suc (r.write_index - d.index) = omega arith in
          (
            rw (pending-same (push t r).1 d (e ∙ sym c), pending-same r d e, w, m)
                (slots-push_end t r d.index (r.write_index - d.index) h (omega arith)),
            inl (e ∙ sym c, omega (arith, w)),
          )
      | inr (lt, w, c) ↦
          let flip : d.state ≡ 1 - (push t r).1.cycle = omega (arith, h.cycle_bound) in
          let bound : (push t r).1.cycle < 2 = omega (arith, h.cycle_bound) in
          let m : r.buf_size - 1 - d.index ≡ suc (r.write_index - d.index) = omega arith in
          (
            rw (pending-behind (push t r).1 d bound flip, pending-same r d e, w, b, m, append-nil _)
                (slots-push_end t r d.index (r.write_index - d.index) h (omega arith)),
            inr (flip, omega (arith, w), omega (arith, b), push-IsLinked_wrap t r h a lt),
          )
    ]

push-IsAppended_behind :
    (t : Trb) (r : Ring) (d : Reader)
    → IsCycled r
    → d.state ≡ 1 - r.cycle
    → r.write_index < d.index
    → d.index + 1 < r.buf_size
    → IsLinked r
    → IsAppended t r d
unfolding IsAppended
push-IsAppended_behind t r d h e lt bound k =
    let (b, a', o) = push-fields t r h in
    elim o [
      | inr (last, w, c) ↦ absurd (omega arith)
      | inl (next, w, c) ↦
          let z : r.write_index + 1 ≡ suc r.write_index = omega arith in
          (
            rw
                (
                  pending-behind (push t r).1 d (rw c h.cycle_bound) (rw c e),
                  pending-behind r d h.cycle_bound e,
                  w,
                  b,
                  slots-push_high t r d.index (r.buf_size - 1 - d.index) h lt (omega arith),
                  z,
                  slots-push_end t r 0 r.write_index h (omega arith),
                )
                (sym (
                  append_assoc (slots r.buf d.index (r.buf_size - 1 - d.index))
                    (slots r.buf 0 r.write_index) (with_cycle r.cycle t ∷ []))),
            inr (rw c e, omega (arith, w), omega (arith, b), push-IsLinked_next t r next k),
          )
    ]

-- With room for one block more, a push appends the block, with the ring's cycle bit, to what is pending.
pub push-IsAppended :
    (t : Trb) (r : Ring) (d : Reader)
    → IsCycled r
    → IsAddress r.buf_address
    → IsReader r d
    → length (pending r d) + 1 < r.buf_size
    → IsAppended t r d
push-IsAppended t r d h a (inl (e, le)) room = push-IsAppended_same t r d h a e le
push-IsAppended t r d h a (inr (e, le, bound, k)) room =
    let n : length (pending r d) ≡ (r.buf_size - 1 - d.index) + r.write_index = rw (
      pending-behind r d h.cycle_bound e,
      length-append (slots r.buf d.index (r.buf_size - 1 - d.index)) (slots r.buf 0 r.write_index),
      length-slots r.buf d.index (r.buf_size - 1 - d.index),
      length-slots r.buf 0 r.write_index,
    ) in
    push-IsAppended_behind t r d h e (omega arith) bound k
