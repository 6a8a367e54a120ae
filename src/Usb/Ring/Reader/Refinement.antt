-- ===== src/Usb/Ring/Reader/Refinement.antt =====
-- The refinement of a ring to a queue, over every order of pushes and reads.
use os_jisaku.Prelude.{
  Bool-cases, List, [], ap, arith, bit_and, bit_or, false, inl, inr, length, length-map, ltb,
  ltb→le, ltb→lt, map, none, refl, some, ℕ, ◌%◌, ◌*◌, ◌++◌, ◌+◌, ◌-◌, ◌/◌, ◌<◌, ◌==◌, ◌^◌, ◌∷◌, ◌≡◌,
  ◌≢◌, ◌⊎◌,
}
use os_jisaku.Prelude.Bits.Masks.{replace_lowest}
use os_jisaku.Usb.Ring.{Ring, push, with_cycle}
use os_jisaku.Usb.Ring.Cycle.{IsCycled, IsPushable}
use os_jisaku.Usb.Ring.Links.{IsAddress}
use os_jisaku.Usb.Ring.Push.{push-IsCycled, push-fields}
use os_jisaku.Usb.Ring.Reader.{IsReader, Reader, pending, read}
use os_jisaku.Usb.Ring.Reader.Pushes.{IsAppended, push-IsAppended}
use os_jisaku.Usb.Ring.Reader.Queue.{IsFirst, pending-same, read-behind, read-last, read-same}
use os_jisaku.Usb.Trb.{Trb, cycle_bit}

pub data Op : Type 0 where
  produce : Trb → Op
  consume : Op

-- A block apart from its cycle bit.
abbrev pub payload : Trb → Trb
payload t = with_cycle 0 t

-- What the reader reads, and what a queue of blocks gives.
unfoldable pub run_ring : List Op → Ring → Reader → List Trb
run_ring [] r d = []
run_ring (produce t ∷ ops) r d = run_ring ops (push t r).1 d
run_ring (consume ∷ ops) r d = elim (read r d) [
  | none ↦ run_ring ops r d
  | some (t, next) ↦ payload t ∷ run_ring ops r next
]

abbrev pub run_queue : List Op → List Trb → List Trb
run_queue [] q = []
run_queue (produce t ∷ ops) q = run_queue ops (q ++ (payload t ∷ []))
run_queue (consume ∷ ops) [] = run_queue ops []
run_queue (consume ∷ ops) (t ∷ q) = t ∷ run_queue ops q

-- The blocks are no links, and no block is pushed while `capacity` of them are unread.
abbrev pub IsFitting : ℕ → List Op → List Trb → Type 0
IsFitting capacity [] q = Unit
IsFitting capacity (produce t ∷ ops) q =
    IsPushable t × (length q < capacity) × IsFitting capacity ops (q ++ (payload t ∷ []))
IsFitting capacity (consume ∷ ops) [] = IsFitting capacity ops []
IsFitting capacity (consume ∷ ops) (t ∷ q) = IsFitting capacity ops q

payload-with_cycle : (c : ℕ) (t : Trb) → c < 2 → payload (with_cycle c t) ≡ payload t
unfolding with_cycle
payload-with_cycle c t h =
    let m = 2 * (t.control / 2 % 2 ^ 31) in
    let e : bit_or (bit_and (bit_or (bit_and t.control (2 ^ 32 - 2)) c) (2 ^ 32 - 2)) 0
        ≡ bit_or (bit_and t.control (2 ^ 32 - 2)) 0 =
      rw
        (
          replace_lowest t.control c h,
          replace_lowest t.control 0 (omega arith),
          replace_lowest (m + c) 0 (omega arith),
        )
        (omega arith) in
    ap (λ w. record t { control = w }) e

read-none : (r : Ring) (d : Reader) → cycle_bit (r.buf d.index) ≢ d.state → read r d ≡ none
unfolding read
read-none r d ne = let f : (cycle_bit (r.buf d.index) == d.state) ≡ false = ground arith in rw f

map-append : (f : Trb → Trb) (xs ys : List Trb) → map f (xs ++ ys) ≡ map f xs ++ map f ys
map-append f [] ys = refl
map-append f (x ∷ xs) ys = ap (λ l. f x ∷ l) (map-append f xs ys)

-- With nothing pending nothing is read, and otherwise the first block is.
read-pending :
    (r : Ring) (d : Reader)
    → IsCycled r
    → IsReader r d
    → ((pending r d ≡ []) × (read r d ≡ none)) ⊎ (next : Reader) × IsFirst r d next
read-pending r d h (inl (e, le)) = elim (Bool-cases (ltb d.index r.write_index)) [
  | inl t ↦ inr (record { index = d.index + 1; state = d.state }, read-same r d h e (ltb→lt _ _ t))
  | inr f ↦
      let i : d.index ≡ r.write_index = ground (arith, ltb→le _ _ f) in
      let z : r.write_index - d.index ≡ 0 = omega arith in
      let stale : cycle_bit (r.buf d.index) ≡ 1 - r.cycle =
        h.stale d.index (omega arith) (omega (arith, h.index_bound)) in
      inl (rw (pending-same r d e, z), read-none r d (omega (arith, stale, h.cycle_bound)))
]
read-pending r d h (inr (e, le, bound, k)) = elim (Bool-cases (ltb (d.index + 2) r.buf_size)) [
  | inl t ↦
      inr (record { index = d.index + 1; state = d.state }, read-behind r d h e le (ltb→lt _ _ t) k)
  | inr f ↦
      inr (
        record { index = 0; state = r.cycle },
        read-last r d h e le (ground (arith, ltb→le _ _ f)) k,
      )
]

-- From any state of the ring and the reader that fits, and for every order of pushes and reads in which
-- no more than the ring's size less one blocks are ever unread: the reader reads what a queue gives,
-- which starts with what is pending.
pub run_ring-run_queue :
    (ops : List Op) (r : Ring) (d : Reader) (capacity : ℕ)
    → IsCycled r
    → IsAddress r.buf_address
    → IsReader r d
    → capacity + 1 ≡ r.buf_size
    → IsFitting capacity ops (map payload (pending r d))
    → run_ring ops r d ≡ run_queue ops (map payload (pending r d))
unfolding run_ring IsAppended IsFirst
run_ring-run_queue [] r d capacity h a o c f = refl
run_ring-run_queue (produce t ∷ ops) r d capacity h a o c (p, room, f) =
    let (b, a', next) = push-fields t r h in
    let (e, o') =
      push-IsAppended t r d h a o (omega (arith, room, length-map (pending r d) payload)) in
    let q : map payload (pending (push t r).1 d) ≡ map payload (pending r d) ++ (payload t ∷ []) =
      rw (
        e,
        map-append payload (pending r d) (with_cycle r.cycle t ∷ []),
        payload-with_cycle r.cycle t h.cycle_bound,
      ) in
    rw (← q) (
      run_ring-run_queue ops (push t r).1 d capacity (push-IsCycled t r h p) (rw a' a) o' (rw b c)
        (rw q f))
run_ring-run_queue (consume ∷ ops) r d capacity h a o c f = elim (read-pending r d h o) [
  | inl (e, n) ↦
      rw (n, run_ring, e) (rw e at (run_ring-run_queue ops r d capacity h a o c (rw e (rw e at f))))
  | inr (next, (n, e, o')) ↦
      rw (n, run_ring, e)
        (ap (λ l. payload (r.buf d.index) ∷ l)
          (run_ring-run_queue ops r next capacity h a o' c (rw e at f)))
]
