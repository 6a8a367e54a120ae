-- ===== src/Memory/Init/Visits.antt =====
-- The walk of `initialize_memory_manager` over the descriptors, one visit and all of them.
use os_jisaku.Memory.{
  BitmapMemoryManager, FrameId, add_size, bytes_per_frame, get_bit, map_lines, mark_allocated,
  max_physical_memory_bytes, set_memory_range,
}
use os_jisaku.Memory.Bounds.{set_bits-inside}
use os_jisaku.Memory.Bitmap.{get_bit-line, get_bit-mark_allocated, in_block}
use os_jisaku.Memory.Init.{
  MemoryDescriptor, MemoryMap, Walk, byte_length, initialize_memory_manager, is_available, mark_gap,
  visit, visit_from,
}
use os_jisaku.Prelude.{
  Bool, Bool-cases, Option, arith, inl, inr, ltb, ltb→le, ltb→lt, not, refl, some, suc, true, zero,
  ℕ, ◌&&◌, ◌*◌, ◌+◌, ◌-◌, ◌/◌, ◌<◌, ◌^◌, ◌||◌, ◌∙◌, ◌≡◌, ◌≤◌,
}

-- The frames of the gap below a descriptor, and those of a descriptor that is not available.
abbrev pub in_gap : ℕ → MemoryDescriptor → FrameId → Bool
in_gap available_end desc f =
    ltb available_end desc.physical_start
    && in_block (available_end / 4096) ((desc.physical_start - available_end) / 4096) f

abbrev pub in_reserved : MemoryDescriptor → FrameId → Bool
in_reserved desc f =
    not (is_available desc.memory_type)
    && in_block (desc.physical_start / 4096) (byte_length desc / 4096) f

get_bit-mark_gap :
    (desc : MemoryDescriptor) (w : Walk) (f : FrameId)
    → desc.physical_start < 2 ^ 64
    → get_bit (mark_gap desc w).manager f ≡ (in_gap w.available_end desc f || get_bit w.manager f)
unfolding mark_gap
get_bit-mark_gap desc w f small = ground (
  arith,
  get_bit-mark_allocated w.manager (w.available_end / 4096)
      ((desc.physical_start - w.available_end) / 4096) f,
)

-- One visit marks the gap below the descriptor and the descriptor's own frames unless they are
-- available; it frees nothing and marks no other frame.
pub get_bit-visit :
    (desc : MemoryDescriptor) (w : Walk) (f : FrameId)
    → desc.physical_start < 2 ^ 64
    → get_bit (visit desc w).manager f
      ≡ (in_reserved desc f || (in_gap w.available_end desc f || get_bit w.manager f))
unfolding visit
get_bit-visit desc w f small = ground (
  arith,
  get_bit-mark_gap desc w f small,
  get_bit-mark_allocated (mark_gap desc w).manager (desc.physical_start / 4096)
      (byte_length desc / 4096) f (omega arith),
)

-- The pages of a descriptor lie within the memory that the bitmap is for, 128 GiB.
abbrev pub IsCovered : MemoryDescriptor → Type 0
IsCovered desc = desc.physical_start + desc.number_of_pages * 4096 ≤ max_physical_memory_bytes

-- A visit of such a descriptor writes no line past the array.
visit-inside :
    (desc : MemoryDescriptor) (w : Walk) (line : ℕ)
    → IsCovered desc
    → map_lines ≤ line
    → (visit desc w).manager.alloc_map line ≡ w.manager.alloc_map line
unfolding visit mark_gap mark_allocated
visit-inside desc w line covered past =
    let gap : (mark_gap desc w).manager.alloc_map line ≡ w.manager.alloc_map line =
      elim (Bool-cases (ltb w.available_end desc.physical_start)) [
        | inl e ↦
            let below = ltb→lt w.available_end desc.physical_start e in
            rw (mark_gap, e)
              (set_bits-inside w.manager (w.available_end / 4096) true
                ((desc.physical_start - w.available_end) / 4096) 0 line (omega arith) past)
        | inr e ↦ rw (mark_gap, e)
      ] in
    elim (Bool-cases (is_available desc.memory_type)) [
      | inl e ↦ rw e gap
      | inr e ↦ rw e (
          set_bits-inside (mark_gap desc w).manager (desc.physical_start / 4096) true
            (byte_length desc / 4096) 0 line (omega arith) past
          ∙ gap)
    ]

-- The words of a memory map: every start is a 64-bit number, the map does not wrap round the address
-- space, its descriptors have a size, and the memory that they describe ends at 128 GiB at most.
pub record IsMap (memory : ℕ → MemoryDescriptor) (memory_map : MemoryMap) : Type 0 where
  pub starts : (address : ℕ) → (memory address).physical_start < 2 ^ 64
  pub sized : 0 < memory_map.descriptor_size
  pub no_wrap : memory_map.buffer + memory_map.map_size + memory_map.descriptor_size < 2 ^ 64
  pub covered :
      (k : ℕ)
      → memory_map.buffer + k * memory_map.descriptor_size < memory_map.buffer + memory_map.map_size
      → IsCovered (memory (memory_map.buffer + k * memory_map.descriptor_size))

module _ (memory : ℕ → MemoryDescriptor) (memory_map : MemoryMap)
    (v : IsMap memory memory_map) where
  -- The descriptors that the loop sees from `iter` on.
  abbrev Seen : ℕ → ℕ → Type 0
  Seen iter k = iter + k * memory_map.descriptor_size < memory_map.buffer + memory_map.map_size

  -- What the loop leaves: no frame is freed, every reserved frame is marked, and no line past the array
  -- is written.
  record Walked (iter : ℕ) (w : Walk) (r : Option Walk) : Type 0 where
    out : Walk
    returns : r ≡ some out
    kept : (f : FrameId) → get_bit w.manager f ≡ true → get_bit out.manager f ≡ true
    marked :
        (k : ℕ) (f : FrameId)
        → Seen iter k
        → in_reserved (memory (iter + k * memory_map.descriptor_size)) f ≡ true
        → get_bit out.manager f ≡ true
    inside : (line : ℕ) → map_lines ≤ line → out.manager.alloc_map line ≡ w.manager.alloc_map line

  -- One visit in front of the rest of the loop.
  Walked-visit :
      {iter : ℕ} {w : Walk} {r : Option Walk}
      → iter < memory_map.buffer + memory_map.map_size
      → IsCovered (memory iter)
      → Walked (iter + memory_map.descriptor_size) (visit (memory iter) w) r
      → Walked iter w r
  Walked-visit {iter} {w} {r} more covered rest = record {
    out = rest.out;
    returns = rest.returns;
    kept = λ f e. rest.kept f (ground (arith, get_bit-visit (memory iter) w f (v.starts iter)));
    marked = marked;
    inside = λ line past. rest.inside line past ∙ visit-inside (memory iter) w line covered past;
  }
    where
      marked :
          (k : ℕ) (f : FrameId)
          → Seen iter k
          → in_reserved (memory (iter + k * memory_map.descriptor_size)) f ≡ true
          → get_bit rest.out.manager f ≡ true
      marked zero f seen e =
          let here : iter + 0 * memory_map.descriptor_size ≡ iter = omega arith in
          let e' : in_reserved (memory iter) f ≡ true = rw here at e in
          rest.kept f (ground (arith, get_bit-visit (memory iter) w f (v.starts iter), e'))
      marked (suc k) f seen e =
          let there : iter + suc k * memory_map.descriptor_size
              ≡ iter + memory_map.descriptor_size + k * memory_map.descriptor_size =
            omega arith in
          rest.marked k f (omega arith) (rw there at e)

  visit_from-Walked :
      (fuel iter : ℕ) (w : Walk)
      → memory_map.buffer + memory_map.map_size < fuel + iter
      → iter < 2 ^ 64
      → 0 < fuel
      → ((k : ℕ) → Seen iter k → IsCovered (memory (iter + k * memory_map.descriptor_size)))
      → Walked iter w (visit_from memory memory_map fuel iter w)
  unfolding visit_from
  visit_from-Walked zero iter w enough word h covered = absurd (omega arith)
  visit_from-Walked (suc fuel) iter w enough word h covered =
      let limit : add_size memory_map.buffer memory_map.map_size
          ≡ memory_map.buffer + memory_map.map_size =
        omega (arith, v.no_wrap) in
      elim (Bool-cases (ltb iter (add_size memory_map.buffer memory_map.map_size))) [
        | inl more ↦
            let before : iter < memory_map.buffer + memory_map.map_size =
              omega (arith, ltb→lt iter _ more) in
            let next : add_size iter memory_map.descriptor_size
                ≡ iter + memory_map.descriptor_size =
              omega (arith, v.no_wrap) in
            let here : iter + 0 * memory_map.descriptor_size ≡ iter = omega arith in
            let first = covered 0 (omega arith) in
            rw (more, visit_from, next)
              (Walked-visit before (rw here at first) (
                visit_from-Walked fuel (iter + memory_map.descriptor_size) (visit (memory iter) w)
                  (omega (arith, v.sized)) (omega (arith, v.no_wrap)) (omega (arith, v.sized))
                  (λ k seen.
                    let there : iter + suc k * memory_map.descriptor_size
                        ≡ iter + memory_map.descriptor_size + k * memory_map.descriptor_size =
                      omega arith in
                    let later = covered (suc k) (omega arith) in rw there at later)))
        | inr over ↦
            rw (over, visit_from)
              (record {
                out = w;
                returns = refl;
                kept = λ f e. e;
                marked = λ k f seen e. absurd (omega (arith, ltb→le iter _ over));
                inside = λ line past. refl;
              })
      ]

  -- For a memory map whose descriptors start at 64-bit addresses, have a size, do not wrap round the
  -- address space and describe memory below 128 GiB: the walk ends; in the manager that it returns
  -- every frame of every descriptor of the map that is not available is in use, and so is every
  -- frame that was in use before; the range starts at frame 1, and no line past the array has been
  -- written.
  pub initialize_memory_manager-reserved :
      (m : BitmapMemoryManager)
      → (m' : BitmapMemoryManager) × (initialize_memory_manager memory memory_map m ≡ some m')
        × (m'.range_begin ≡ 1)
        × ((f : FrameId) → get_bit m f ≡ true → get_bit m' f ≡ true)
        × ((k : ℕ) (f : FrameId)
            → Seen memory_map.buffer k
            → in_reserved (memory (memory_map.buffer + k * memory_map.descriptor_size)) f ≡ true
            → get_bit m' f ≡ true)
        × ((line : ℕ) → map_lines ≤ line → m'.alloc_map line ≡ m.alloc_map line)
  unfolding initialize_memory_manager set_memory_range
  initialize_memory_manager-reserved m =
      let walked =
        visit_from-Walked (memory_map.map_size + 1) memory_map.buffer
          (record { manager = m; available_end = 0 }) (omega arith) (omega (arith, v.no_wrap))
          (omega arith) v.covered in
      let m' = set_memory_range walked.out.manager 1 (walked.out.available_end / bytes_per_frame) in
      let same : (f : FrameId) → get_bit m' f ≡ get_bit walked.out.manager f =
        λ f. get_bit-line m' walked.out.manager f refl in
      (
        m',
        rw (walked.returns, initialize_memory_manager) refl,
        refl,
        λ f e. same f ∙ walked.kept f e,
        λ k f seen e. same f ∙ walked.marked k f seen e,
        walked.inside,
      )
