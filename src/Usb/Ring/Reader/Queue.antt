-- ===== src/Usb/Ring/Reader/Queue.antt =====
-- A ring and its reader are a queue: what is pushed is read, once, in order.
use os_jisaku.Prelude.{
  [], ap, arith, false, inl, inr, length, refl, some, suc, sym, true, zero, ℕ, ◌++◌, ◌+◌, ◌-◌, ◌/◌,
  ◌<◌, ◌==◌, ◌∙◌, ◌∷◌, ◌≡◌, ◌≢◌, ◌≤◌,
}
use os_jisaku.Usb.Ring.{Ring}
use os_jisaku.Usb.Ring.Cycle.{IsCycled}
use os_jisaku.Usb.Ring.Reader.{IsLinked, IsReader, Reader, follow, pending, read, slots}
use os_jisaku.Usb.Trb.{Trb, cycle_bit, link, trb_type, type_of}

pub slots-suc :
    (buf : ℕ → Trb) (i n : ℕ) → 0 < n → slots buf i n ≡ buf i ∷ slots buf (i + 1) (n - 1)
slots-suc buf i zero h = absurd (omega arith)
slots-suc buf i (suc n) h = ap (λ m. buf i ∷ slots buf (i + 1) m) (omega arith)

pub slots-snoc :
    (buf : ℕ → Trb) (i n : ℕ) → slots buf i (suc n) ≡ slots buf i n ++ (buf (i + n) ∷ [])
slots-snoc buf i zero = ap (λ j. buf j ∷ []) (omega arith)
slots-snoc buf i (suc n) =
    let e : i + 1 + n ≡ i + suc n = omega arith in
    rw e at (ap (λ l. buf i ∷ l) (slots-snoc buf (i + 1) n))

pub slots-ext :
    (f g : ℕ → Trb) (i n : ℕ)
    → ((j : ℕ) → i ≤ j → j < i + n → f j ≡ g j)
    → slots f i n ≡ slots g i n
slots-ext f g i zero h = refl
slots-ext f g i (suc n) h = rw (
  h i (omega arith) (omega arith),
  slots-ext f g (i + 1) n (λ j l m. h j (omega arith) (omega arith)),
)

pub length-slots : (buf : ℕ → Trb) (i n : ℕ) → length (slots buf i n) ≡ n
length-slots buf i zero = refl
length-slots buf i (suc n) = ap suc (length-slots buf (i + 1) n)

pub pending-same :
    (r : Ring) (d : Reader)
    → d.state ≡ r.cycle
    → pending r d ≡ slots r.buf d.index (r.write_index - d.index)
unfolding pending
pending-same r d e = let t : (d.state == r.cycle) ≡ true = ground arith in rw t

pub pending-behind :
    (r : Ring) (d : Reader)
    → r.cycle < 2
    → d.state ≡ 1 - r.cycle
    → pending r d ≡ slots r.buf d.index (r.buf_size - 1 - d.index) ++ slots r.buf 0 r.write_index
unfolding pending
pending-behind r d h e = let f : (d.state == r.cycle) ≡ false = ground arith in rw f

-- A block that is the reader's is read.
read-some :
    (r : Ring) (d : Reader)
    → cycle_bit (r.buf d.index) ≡ d.state
    → read r d ≡ some (r.buf d.index, follow r (record { index = d.index + 1; state = d.state }))
unfolding read
read-some r d e = let t : (cycle_bit (r.buf d.index) == d.state) ≡ true = ground arith in rw t

follow-none : (r : Ring) (d : Reader) → trb_type (r.buf d.index) ≢ type_of link → follow r d ≡ d
unfolding follow
follow-none r d ne =
    let f : (trb_type (r.buf d.index) == type_of link) ≡ false = ground arith in rw f

follow-link :
    (r : Ring) (s : ℕ)
    → IsLinked r
    → s ≡ 1 - r.cycle
    → r.cycle < 2
    → follow r (record { index = r.buf_size - 1; state = s })
      ≡ record { index = 0; state = r.cycle }
unfolding follow
follow-link r s k e h =
    let c : (1 - r.cycle == s) ≡ true = ground arith in
    let z : (r.buf_address - r.buf_address) / 16 ≡ 0 = omega arith in
    let f : 1 - s ≡ r.cycle = omega arith in
    rw (k.link_type, k.link_cycle, c, k.link_target, k.link_toggles, z, f)

-- What is read is what comes first of what is pending.
unfoldable pub IsFirst : Ring → Reader → Reader → Type 0
IsFirst r d next =
    (read r d ≡ some (r.buf d.index, next))
    × (pending r d ≡ r.buf d.index ∷ pending r next)
    × IsReader r next

pub read-same :
    (r : Ring) (d : Reader)
    → IsCycled r
    → d.state ≡ r.cycle
    → d.index < r.write_index
    → IsFirst r d (record { index = d.index + 1; state = d.state })
unfolding IsFirst
read-same r d h e lt =
    let next : Reader = record { index = d.index + 1; state = d.state } in
    let c : cycle_bit (r.buf d.index) ≡ d.state = h.written d.index lt ∙ sym e in
    let m : r.write_index - d.index - 1 ≡ r.write_index - (d.index + 1) = omega arith in
    (
      rw (
        read-some r d c,
        follow-none r next (h.no_links (d.index + 1) (omega (arith, h.index_bound))),
      ),
      rw (
        pending-same r d e,
        pending-same r next e,
        slots-suc r.buf d.index (r.write_index - d.index) (omega arith),
        m,
      ),
      inl (e, omega arith),
    )

pub read-behind :
    (r : Ring) (d : Reader)
    → IsCycled r
    → d.state ≡ 1 - r.cycle
    → r.write_index ≤ d.index
    → d.index + 2 < r.buf_size
    → IsLinked r
    → IsFirst r d (record { index = d.index + 1; state = d.state })
unfolding IsFirst
read-behind r d h e le lt k =
    let next : Reader = record { index = d.index + 1; state = d.state } in
    let c : cycle_bit (r.buf d.index) ≡ d.state = h.stale d.index le (omega arith) ∙ sym e in
    let m : r.buf_size - 1 - d.index - 1 ≡ r.buf_size - 1 - (d.index + 1) = omega arith in
    (
      rw (read-some r d c, follow-none r next (h.no_links (d.index + 1) (omega arith))),
      rw (
        pending-behind r d h.cycle_bound e,
        pending-behind r next h.cycle_bound e,
        slots-suc r.buf d.index (r.buf_size - 1 - d.index) (omega arith),
        m,
      ),
      inr (e, omega arith, omega arith, k),
    )

pub read-last :
    (r : Ring) (d : Reader)
    → IsCycled r
    → d.state ≡ 1 - r.cycle
    → r.write_index ≤ d.index
    → d.index + 2 ≡ r.buf_size
    → IsLinked r
    → IsFirst r d (record { index = 0; state = r.cycle })
unfolding IsFirst
read-last r d h e le last k =
    let next : Reader = record { index = 0; state = r.cycle } in
    let c : cycle_bit (r.buf d.index) ≡ d.state = h.stale d.index le (omega arith) ∙ sym e in
    let i : d.index + 1 ≡ r.buf_size - 1 = omega arith in
    let m : r.buf_size - 1 - d.index ≡ 1 = omega arith in
    let z : r.write_index - 0 ≡ r.write_index = omega arith in
    (
      rw (read-some r d c, i, follow-link r d.state k e h.cycle_bound),
      rw (pending-behind r d h.cycle_bound e, pending-same r next refl, m, z),
      inl (refl, omega arith),
    )
