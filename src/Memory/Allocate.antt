-- ===== src/Memory/Allocate.antt =====
-- `allocate` is first fit: it takes the lowest free block of the range, and fails only if there is
-- none.
use os_jisaku.Errors.{WithError, no_enough_memory, success}
use os_jisaku.Memory.{
  Allocation, BitmapMemoryManager, FrameId, Scan, add_size, allocate, allocate_from, fits, free,
  get_bit, in_use, mark_allocated, null_frame, past_range, scan,
}
use os_jisaku.Memory.Bitmap.{get_bit-free, get_bit-mark_allocated, in_block, range-mark_allocated}
use os_jisaku.Prelude.{
  ==→≡, Bool-cases, Option, arith, false, inl, inr, leb, ltb, ltb→le, max, refl, some, suc, sym,
  true, zero, ℕ, ◌+◌, ◌<◌, ◌==◌, ◌^◌, ◌≡◌, ◌≤◌, ◌⊎◌,
}

-- A block of `n` frames inside the range with no frame in use.
pub record FreeBlock (m : BitmapMemoryManager) (n : ℕ) (start : FrameId) : Type 0 where
  pub from_begin : m.range_begin ≤ start
  pub to_end : start + n ≤ m.range_end
  pub all_free : (f : FrameId) → start ≤ f → f < start + n → get_bit m f ≡ false

-- What the inner loop finds out about the frames from `start + i` to `start + n`.
abbrev ScanFinds : BitmapMemoryManager → FrameId → ℕ → ℕ → Scan → Type 0
ScanFinds m start i n fits =
    (start + n ≤ m.range_end)
    × ((f : FrameId) → start + i ≤ f → f < start + n → get_bit m f ≡ false)
ScanFinds m start i n past_range = m.range_end < start + n
ScanFinds m start i n (in_use j) =
    (i ≤ j) × (j < n) × (start + j < m.range_end) × (get_bit m (start + j) ≡ true)

module _ (m : BitmapMemoryManager) (small : m.range_end < 2 ^ 64) (start : FrameId) where
  no_wrap : (i : ℕ) → start + i ≤ m.range_end → add_size start i ≡ start + i
  no_wrap i h = omega arith

  -- One more free frame below.
  ScanFinds-widen :
      (n i : ℕ) (s : Scan)
      → get_bit m (start + i) ≡ false
      → ScanFinds m start (i + 1) n s
      → ScanFinds m start i n s
  ScanFinds-widen n i past_range vacant h = h
  ScanFinds-widen n i (in_use j) vacant h = ground arith
  ScanFinds-widen n i fits vacant h = (
    h.0,
    λ f p q. elim (Bool-cases (f == start + i)) [
      | inl here ↦ rw (==→≡ f (start + i) here) vacant
      | inr other ↦ h.1 f (ground arith) q
    ],
  )

  scan-ScanFinds :
      (n left i : ℕ)
      → i + left ≡ n
      → start + i ≤ m.range_end
      → ScanFinds m start i n (scan m start left i)
  unfolding scan
  scan-ScanFinds n zero i e h = (omega arith, λ f p q. absurd (omega arith))
  scan-ScanFinds n (suc left) i e h = elim (Bool-cases (leb m.range_end (add_size start i))) [
    | inl past ↦ rw past (ground arith)
    | inr inside ↦ elim (Bool-cases (get_bit m (add_size start i))) [
      | inl used ↦
          rw (inside, used) (omega arith, omega arith, ground arith, rw (← no_wrap i h) used)
      | inr not_used ↦
          rw (inside, not_used)
            (ScanFinds-widen n i (scan m start left (i + 1)) (rw (← no_wrap i h) not_used)
              (scan-ScanFinds n left (i + 1) (omega arith) (ground arith)))
    ]
  ]

-- What `allocate` promises: the lowest free block, marked; or, with no free block in the range,
-- `no_enough_memory`, the null frame and the manager as it was.
pub data Allocates (m : BitmapMemoryManager) (n : ℕ) : Option Allocation → Type 0 where
  found :
      (start : FrameId)
      → FreeBlock m n start
      → ((lower : FrameId) → FreeBlock m n lower → start ≤ lower)
      → Allocates m n (some (record { value = start; error = success }, mark_allocated m start n))
  full :
      ((start : FrameId) → ¬ FreeBlock m n start)
      → Allocates m n (some (record { value = null_frame; error = no_enough_memory }, m))

module _ (m : BitmapMemoryManager) (n : ℕ) (small : m.range_end < 2 ^ 64)
    (some_frames : 0 < n) where
  -- No free block starts below `start`.
  abbrev NoneBelow : FrameId → Type 0
  NoneBelow start = (s : FrameId) → FreeBlock m n s → start ≤ s

  -- A frame in use rules out every block that holds it.
  NoneBelow-step :
      (start j : ℕ)
      → NoneBelow start
      → get_bit m (start + j) ≡ true
      → j < n
      → NoneBelow (start + (j + 1))
  NoneBelow-step start j none_below used in_block s b =
      elim (Bool-cases (ltb s (start + (j + 1)))) [
        | inl lower ↦ ground (arith, none_below s b, b.all_free (start + j))
        | inr higher ↦ ltb→le s (start + (j + 1)) higher
      ]

  allocate_from-Allocates :
      (fuel : ℕ) (start : FrameId)
      → m.range_begin ≤ start
      → NoneBelow start
      → m.range_end < fuel + start
      → start ≤ m.range_end
      → Allocates m n (allocate_from m n fuel start)
  unfolding allocate_from
  allocate_from-Allocates zero start b none_below enough inside = absurd (omega arith)
  allocate_from-Allocates (suc fuel) start b none_below enough inside =
      step (scan m start n 0) refl (scan-ScanFinds m small start n n 0 (omega arith) (omega arith))
        (allocate_from-Allocates fuel)
    where
      step :
          (s : Scan)
          → scan m start n 0 ≡ s
          → ScanFinds m start 0 n s
          → ((next : FrameId)
              → m.range_begin ≤ next
              → NoneBelow next
              → m.range_end < fuel + next
              → next ≤ m.range_end
              → Allocates m n (allocate_from m n fuel next))
          → Allocates m n (allocate_from m n (suc fuel) start)
      step past_range e h ih =
          rw (e, allocate_from) (full λ s block. omega (arith, none_below s block, block.to_end))
      step (in_use j) e (_, j_lt, in_range, used) ih =
          rw (e, allocate_from, no_wrap m small start (j + 1) (omega arith))
            (ih (start + (j + 1)) (omega arith) (NoneBelow-step start j none_below used j_lt)
              (omega arith) (omega arith))
      step fits e (room, all_free) ih =
          rw (e, allocate_from)
            (found start
              (record {
                from_begin = b;
                to_end = room;
                all_free = λ f p q. all_free f (omega arith) q;
              })
              none_below)

-- `allocate` ends, and takes the lowest free block of the range or finds that there is none.
pub allocate-Allocates :
    (m : BitmapMemoryManager) (n : ℕ)
    → m.range_begin ≤ m.range_end
    → m.range_end < 2 ^ 64
    → 0 < n
    → Allocates m n (allocate m n)
unfolding allocate
allocate-Allocates m n ordered small some_frames =
    allocate_from-Allocates m n small some_frames (m.range_end + 1) m.range_begin (omega arith)
      (λ s block. block.from_begin) (omega arith) ordered

success_inversion :
    {m : BitmapMemoryManager} {n : ℕ} {r : Option Allocation}
    → Allocates m n r
    → (w : WithError FrameId) (m' : BitmapMemoryManager) → r ≡ some (w, m')
    → w.error ≡ success
    → FreeBlock m n w.value × (m' ≡ mark_allocated m w.value n)
success_inversion {m} {n} (found start block lowest) w m' e ok =
    let same : start ≡ w.value = cc in
    let marked : mark_allocated m start n ≡ m' = cc in (rw (← same) block, rw (← same) (sym marked))
success_inversion (full none_free) w m' e ok = cc

-- A free block of the marked map does not meet the marked block.
FreeBlock-mark_allocated :
    (m : BitmapMemoryManager) (s n t k : ℕ)
    → s + n ≤ 2 ^ 64
    → 0 < n
    → 0 < k
    → FreeBlock (mark_allocated m s n) k t
    → (s + n ≤ t) ⊎ (t + k ≤ s)
FreeBlock-mark_allocated m s n t k room n_pos k_pos block =
    ground (arith, get_bit-mark_allocated m s n (max s t) room, block.all_free (max s t))

module _ (m : BitmapMemoryManager) (n : ℕ) (ordered : m.range_begin ≤ m.range_end)
    (small : m.range_end < 2 ^ 64) (some_frames : 0 < n) where
  -- A successful `allocate` hands out a block that was free inside the range, and marks it.
  pub allocate-success :
      (w : WithError FrameId) (m' : BitmapMemoryManager)
      → allocate m n ≡ some (w, m')
      → w.error ≡ success
      → FreeBlock m n w.value × (m' ≡ mark_allocated m w.value n)
  allocate-success = success_inversion (allocate-Allocates m n ordered small some_frames)

  -- Freeing what `allocate` handed out makes every frame as it was before.
  pub free-allocate :
      (w : WithError FrameId) (m' : BitmapMemoryManager)
      → allocate m n ≡ some (w, m')
      → w.error ≡ success
      → (f : FrameId) → get_bit (free m' w.value n).1 f ≡ get_bit m f
  free-allocate w m' e ok f =
      let (block, marked) = allocate-success w m' e ok in
      let room : w.value + n ≤ 2 ^ 64 = omega (arith, block.to_end) in
      ground (
        arith,
        marked,
        get_bit-free (mark_allocated m w.value n) w.value n f room,
        get_bit-mark_allocated m w.value n f room,
        block.all_free f,
      )

  -- Two blocks that are handed out one after the other do not meet.
  pub allocate-disjoint :
      (k : ℕ) (w v : WithError FrameId) (m' m'' : BitmapMemoryManager)
      → 0 < k
      → allocate m n ≡ some (w, m')
      → w.error ≡ success
      → allocate m' k ≡ some (v, m'')
      → v.error ≡ success
      → (w.value + n ≤ v.value) ⊎ (v.value + k ≤ w.value)
  allocate-disjoint k w v m' m'' k_pos e ok e' ok' =
      let (block, marked) = allocate-success w m' e ok in
      let after = mark_allocated m w.value n in
      let (begin_same, end_same) = range-mark_allocated m w.value n in
      let next =
        success_inversion (allocate-Allocates after k (omega arith) (omega arith) k_pos) v m''
          (rw marked at e') ok' in
      FreeBlock-mark_allocated m w.value n v.value k (omega (arith, block.to_end)) some_frames k_pos
        next.0
