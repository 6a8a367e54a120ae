-- ===== src/Memory/Heap.antt =====
-- kernel/sbrk.cpp: the C library's heap, a break pointer that moves inside one block of frames.
use os_jisaku.Errors.{Code, WithError, is_error, is_error-false, success}
use os_jisaku.Memory.{
  Allocation, BitmapMemoryManager, FrameId, add_size, allocate, bytes_per_frame, frame_count,
  mark_allocated,
}
use os_jisaku.Memory.Allocate.{FreeBlock, allocate-success}
use os_jisaku.Prelude.{
  Bool-cases, List, Option, [], ap, arith, if◌then◌else◌, inl, inr, leb, ltb, ltb→le, ltb→lt, none,
  refl, some, some_inj, ℕ, ◌%◌, ◌*◌, ◌+◌, ◌-◌, ◌<◌, ◌==◌, ◌^◌, ◌||◌, ◌∷◌, ◌≡◌, ◌≤◌, ◌⊎◌,
}
use os_jisaku.Prelude.Int.{neg_part, pos, pos_part, ℤ}

-- `errno`, as far as this file sets it.
pub data Errno : Type 0 where
  no_errno enomem : Errno

-- The file's two pointers (0 is the null pointer), and `errno`.
pub record Heap : Type 0 where
  pub program_break : ℕ
  pub program_break_end : ℕ
  pub errno : Errno

-- `p + incr` for a pointer and an `int`.
abbrev pub add_int : ℕ → ℤ → ℕ
add_int p incr = (p + pos_part incr + (2 ^ 64 - neg_part incr)) % 2 ^ 64

-- `reinterpret_cast<caddr_t>(-1)`.
abbrev pub sbrk_failed : ℕ
sbrk_failed = 2 ^ 64 - 1

unfoldable pub sbrk : ℤ → Heap → ℕ × Heap
sbrk incr h =
    if h.program_break == 0 || leb h.program_break_end (add_int h.program_break incr)
    then (sbrk_failed, record h { errno = enomem })
    else (h.program_break, record h { program_break = add_int h.program_break incr })

abbrev pub heap_frames : ℕ
heap_frames = 64 * 512

-- What `initialize_heap` returns and leaves behind.
abbrev pub Setup : Type 0
Setup = Code × Heap × BitmapMemoryManager

abbrev pub heap_at : ℕ → Heap → Heap
heap_at start h = record h {
  program_break = start;
  program_break_end = add_size start (heap_frames * bytes_per_frame);
}

-- The part of `initialize_heap` after the call of `allocate`.
unfoldable pub set_up_heap : WithError FrameId → BitmapMemoryManager → Heap → Setup
unfolding is_error
set_up_heap heap_start m h =
    if is_error heap_start.error
    then (heap_start.error, h, m)
    else (success, heap_at (heap_start.value * bytes_per_frame % 2 ^ 64) h, m)

-- `none` is the loop of `allocate` without fuel.
unfoldable pub initialize_heap : BitmapMemoryManager → Heap → Option Setup
unfolding set_up_heap
initialize_heap m h = elim (allocate m heap_frames) [
  | none ↦ none
  | some (heap_start, m') ↦ some (set_up_heap heap_start m' h)
]

-- A heap that `initialize_heap` has set up, with its break inside.
pub record IsHeap (h : Heap) : Type 0 where
  pub set_up : 0 < h.program_break
  pub inside : h.program_break < h.program_break_end
  pub low : h.program_break_end < 2 ^ 63

-- Growing the heap by a non-negative amount: with room the old break is returned and the break moves
-- up by that amount; without, `errno` is set and the heap does not move.
pub sbrk-grow :
    (n : ℕ) (h : Heap)
    → n < 2 ^ 31
    → IsHeap h
    → IsHeap (sbrk (pos n) h).1
      × (h.program_break + n < h.program_break_end
          → sbrk (pos n) h ≡ (h.program_break, record h { program_break = h.program_break + n }))
      × (h.program_break_end ≤ h.program_break + n
          → sbrk (pos n) h ≡ (sbrk_failed, record h { errno = enomem }))
unfolding sbrk
sbrk-grow n h small v = (ground arith, λ room. ground arith, λ no_room. ground arith)

-- The results of a series of calls, with the amounts that were asked for.
abbrev pub sbrk_calls : List ℕ → Heap → List (ℕ × ℕ)
sbrk_calls [] h = []
sbrk_calls (n ∷ ns) h = (n, (sbrk (pos n) h).0) ∷ sbrk_calls ns (sbrk (pos n) h).1

-- Every result is a failure or a block that starts where the earlier ones end, below `limit`.
abbrev pub Blocks : ℕ → ℕ → List (ℕ × ℕ) → Type 0
Blocks from limit [] = Unit {0}
Blocks from limit ((n, p) ∷ rest) =
    ((p ≡ sbrk_failed) × Blocks from limit rest)
    ⊎ ((p ≡ from) × (from + n < limit) × Blocks (from + n) limit rest)

abbrev pub AllBelow : ℕ → List ℕ → Type 0
AllBelow bound [] = Unit {0}
AllBelow bound (n ∷ ns) = (n < bound) × AllBelow bound ns

-- In a heap that is set up, for a series of calls that each ask for a non-negative amount below
-- 2 ^ 31 (an `int`; a negative amount moves the break down, and is not covered): every call fails or
-- returns a block, and the blocks lie one after the other inside the heap.
pub sbrk_calls-Blocks :
    (ns : List ℕ) (h : Heap)
    → AllBelow (2 ^ 31) ns
    → IsHeap h
    → Blocks h.program_break h.program_break_end (sbrk_calls ns h)
sbrk_calls-Blocks [] h small v = tt
sbrk_calls-Blocks (n ∷ ns) h (small, rest) v =
    let (valid, room, no_room) = sbrk-grow n h small v in
    let later = sbrk_calls-Blocks ns (sbrk (pos n) h).1 rest valid in
    elim (Bool-cases (ltb (h.program_break + n) h.program_break_end)) [
      | inl e ↦
          let done = room (ltb→lt (h.program_break + n) h.program_break_end e) in
          let break_at = ap (λ r. r.1.program_break) done in
          let end_at = ap (λ r. r.1.program_break_end) done in
          inr (
            ap (λ r. r.0) done,
            ltb→lt (h.program_break + n) h.program_break_end e,
            rw (break_at, end_at) at later,
          )
      | inr e ↦
          let refused = no_room (ltb→le (h.program_break + n) h.program_break_end e) in
          let break_at = ap (λ r. r.1.program_break) refused in
          let end_at = ap (λ r. r.1.program_break_end) refused in
          inl (ap (λ r. r.0) refused, rw (break_at, end_at) at later)
    ]

set_up_heap-success :
    (w : WithError FrameId) (h : Heap) (after : BitmapMemoryManager) (h' : Heap)
    (m' : BitmapMemoryManager)
    → set_up_heap w after h ≡ (success, h', m')
    → (w.error ≡ success) × (heap_at (w.value * bytes_per_frame % 2 ^ 64) h ≡ h') × (after ≡ m')
unfolding set_up_heap is_error
set_up_heap-success w h after h' m' e = elim (Bool-cases (is_error w.error)) [
  | inl bad ↦
      let code : w.error ≡ success = ap (λ r. r.0) (rw (bad, set_up_heap) at e) in
      cc (rw code at bad)
  | inr good ↦
      let done = rw (good, set_up_heap) at e in
      (is_error-false w.error good, ap (λ r. r.1) done, ap (λ r. r.2) done)
]

-- A heap that is set up spans exactly the bytes of a block of frames that was free and is now marked.
pub initialize_heap-IsHeap :
    (m : BitmapMemoryManager) (h h' : Heap) (m' : BitmapMemoryManager)
    → m.range_begin ≤ m.range_end
    → 0 < m.range_begin
    → m.range_end ≤ frame_count
    → initialize_heap m h ≡ some (success, h', m')
    → IsHeap h'
      × (start : FrameId) × FreeBlock m heap_frames start
      × (m' ≡ mark_allocated m start heap_frames)
      × (h'.program_break ≡ start * bytes_per_frame)
      × (h'.program_break_end ≡ (start + heap_frames) * bytes_per_frame)
unfolding initialize_heap
initialize_heap-IsHeap m h h' m' ordered begin bounded e = step (allocate m heap_frames) refl
  where
    step :
        (r : Option Allocation)
        → allocate m heap_frames ≡ r
        → IsHeap h'
          × (start : FrameId) × FreeBlock m heap_frames start
          × (m' ≡ mark_allocated m start heap_frames)
          × (h'.program_break ≡ start * bytes_per_frame)
          × (h'.program_break_end ≡ (start + heap_frames) * bytes_per_frame)
    step none a = absurd (cc (rw (a, initialize_heap) at e))
    step (some (w, after)) a =
        let ran = some_inj (rw (a, initialize_heap) at e) in
        let (ok, moved, left) = set_up_heap-success w h after h' m' ran in
        let (block, marked) =
          allocate-success m heap_frames ordered (omega arith) (omega arith) w after a ok in
        let begins = block.from_begin in
        let ends = block.to_end in
        (ground arith, w.value, block, rw (← left) marked, ground arith, ground arith)
