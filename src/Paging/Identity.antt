-- ===== src/Paging/Identity.antt =====
-- The tables map every address below 64 GiB to itself: the walk of the processor through four levels
-- of tables, as its manual describes it, on a memory that holds the tables.
use os_jisaku.Paging.{
  PageTables, page_directory_count, page_size_1g, page_size_2m, set_pml4, set_up_from,
  setup_identity_page_table,
}
use os_jisaku.Prelude.{
  ==→≡, Bool, Bool-cases, Option, arith, if◌then◌else◌, none, not, some, ◌&&◌, ◌^◌, bit_or, false,
  inl, inr, ltb, refl, suc, true, zero, ℕ, ◌%◌, ◌*◌, ◌+◌, ◌-◌, ◌/◌, ◌<◌, ◌==◌, ◌∙◌, ◌≡◌, ◌≤◌,
}
use os_jisaku.Prelude.Bits.Single.{bit_or-disjoint}

-- The address of a table: aligned, and of 52 bits.
abbrev pub IsTable : ℕ → Type 0
IsTable address = (address % 2 ^ 12 ≡ 0) × (address < 2 ^ 52)

-- The flags of an entry, and the address of the next table in it.
abbrev is_writable : ℕ → Bool
is_writable entry = entry % 4 == 3

abbrev is_large : ℕ → Bool
is_large entry = entry / 2 ^ 7 % 2 == 1

abbrev next_table : ℕ → ℕ
next_table entry = entry % 2 ^ 52 / 2 ^ 12 * 2 ^ 12

-- The walk for a write to an address, through a page of 2 MiB; `none` is a page fault, or a page of
-- another size.
abbrev pub walk_directory : (ℕ → ℕ) → ℕ → ℕ → Option ℕ
walk_directory memory table a =
    let entry = memory (table + 8 * (a / 2 ^ 21 % 512)) in
    if is_writable entry && is_large entry
    then some (entry % 2 ^ 52 / 2 ^ 21 * 2 ^ 21 + a % 2 ^ 21)
    else none

abbrev pub walk_pdp : (ℕ → ℕ) → ℕ → ℕ → Option ℕ
walk_pdp memory table a =
    let entry = memory (table + 8 * (a / 2 ^ 30 % 512)) in
    if is_writable entry && not (is_large entry)
    then walk_directory memory (next_table entry) a
    else none

abbrev pub walk : (ℕ → ℕ) → ℕ → ℕ → Option ℕ
walk memory pml4_address a =
    let entry = memory (pml4_address + 8 * (a / 2 ^ 39 % 512)) in
    if is_writable entry then walk_pdp memory (next_table entry) a else none

-- An entry that refers to a table.
table_entry :
    (table : ℕ)
    → IsTable table
    → (is_writable (table + 0x003) ≡ true)
      × (is_large (table + 0x003) ≡ false)
      × (next_table (table + 0x003) ≡ table)
table_entry table (aligned, small) = (ground arith, ground arith, omega arith)

walk-entries :
    (memory : ℕ → ℕ) (pml4_address pdp directory a : ℕ)
    → IsTable pdp
    → IsTable directory
    → memory (pml4_address + 8 * (a / 2 ^ 39 % 512)) ≡ pdp + 0x003
    → memory (pdp + 8 * (a / 2 ^ 30 % 512)) ≡ directory + 0x003
    → memory (directory + 8 * (a / 2 ^ 21 % 512)) ≡ a - a % 2 ^ 21 + 0x083
    → a < 2 ^ 52
    → walk memory pml4_address a ≡ some a
walk-entries memory pml4_address pdp directory a at_pdp at_directory e4 e3 e2 small =
    let (w4, l4, n4) = table_entry pdp at_pdp in
    let (w3, l3, n3) = table_entry directory at_directory in
    let page = a - a % 2 ^ 21 + 0x083 in
    let w2 : is_writable page ≡ true = ground arith in
    let l2 : is_large page ≡ true = ground arith in
    let n2 : page % 2 ^ 52 / 2 ^ 21 * 2 ^ 21 + a % 2 ^ 21 ≡ a = omega arith in
    rw (e4, w4, n4, e3, w3, l3, n3, e2, w2, l2, n2)

module _ (pdp_address : ℕ) (directory_address : ℕ → ℕ) where
  set_up_from_kept :
      (left i j k : ℕ) (t : PageTables)
      → k < i
      → (set_up_from pdp_address directory_address left i t).page_directory k j
        ≡ t.page_directory k j
  unfolding set_up_from
  set_up_from_kept zero i j k t h = refl
  set_up_from_kept (suc left) i j k t h =
      let other : (k == i) ≡ false = ground arith in
      set_up_from_kept left (i + 1) j k _ (omega arith) ∙ rw other

  set_up_from-entry :
      (left i j k : ℕ) (t : PageTables)
      → i ≤ k
      → k < i + left
      → j < 512
      → (set_up_from pdp_address directory_address left i t).page_directory k j
        ≡ bit_or (k * page_size_1g + j * page_size_2m) 0x083
  unfolding set_up_from
  set_up_from-entry zero i j k t low high h = absurd (omega arith)
  set_up_from-entry (suc left) i j k t low high h = elim (Bool-cases (k == i)) [
    | inl here ↦
        let e = ==→≡ k i here in
        let in_table : ltb j 512 ≡ true = ground arith in
        set_up_from_kept left (i + 1) j k _ (omega arith) ∙ rw (here, in_table, e)
    | inr later ↦ set_up_from-entry left (i + 1) j k _ (ground arith) (omega arith) h
  ]

  set_up_from_pml4 :
      (left i k : ℕ) (t : PageTables)
      → (set_up_from pdp_address directory_address left i t).pml4_table k ≡ t.pml4_table k
  unfolding set_up_from
  set_up_from_pml4 zero i k t = refl
  set_up_from_pml4 (suc left) i k t = set_up_from_pml4 left (i + 1) k _

  set_up_from_pdp_kept :
      (left i k : ℕ) (t : PageTables)
      → k < i
      → (set_up_from pdp_address directory_address left i t).pdp_table k ≡ t.pdp_table k
  unfolding set_up_from
  set_up_from_pdp_kept zero i k t h = refl
  set_up_from_pdp_kept (suc left) i k t h =
      let other : (k == i) ≡ false = ground arith in
      set_up_from_pdp_kept left (i + 1) k _ (omega arith) ∙ rw other

  set_up_from-pdp :
      (left i k : ℕ) (t : PageTables)
      → i ≤ k
      → k < i + left
      → (set_up_from pdp_address directory_address left i t).pdp_table k
        ≡ bit_or (directory_address k) 0x003
  unfolding set_up_from
  set_up_from-pdp zero i k t low high = absurd (omega arith)
  set_up_from-pdp (suc left) i k t low high = elim (Bool-cases (k == i)) [
    | inl here ↦
        let e = ==→≡ k i here in set_up_from_pdp_kept left (i + 1) k _ (omega arith) ∙ rw (here, e)
    | inr later ↦ set_up_from-pdp left (i + 1) k _ (ground arith) (omega arith)
  ]

  -- The entry for an address below 64 GiB holds the start of the address's own 2 MiB page with the
  -- flags for a present, writable, large page.
  directory-entry :
      (t : PageTables) (a : ℕ)
      → a < page_directory_count * page_size_1g
      → (setup_identity_page_table pdp_address directory_address t).page_directory
          (a / page_size_1g)
          (a / page_size_2m % 512)
        ≡ a - a % page_size_2m + 0x083
  unfolding setup_identity_page_table
  directory-entry t a h =
      let sum =
        bit_or-disjoint 21 (a / page_size_1g * page_size_1g + a / page_size_2m % 512 * page_size_2m)
          0x083 (a / page_size_2m) (omega arith) (omega arith) in
      set_up_from-entry page_directory_count 0 (a / page_size_2m % 512) (a / page_size_1g)
        (set_pml4 pdp_address t) (omega arith) (omega arith) (omega arith)
      ∙ (sum ∙ omega arith)

  pdp-entry :
      (t : PageTables) (k : ℕ)
      → k < page_directory_count
      → IsTable (directory_address k)
      → (setup_identity_page_table pdp_address directory_address t).pdp_table k
        ≡ directory_address k + 0x003
  unfolding setup_identity_page_table
  pdp-entry t k h table =
      set_up_from-pdp page_directory_count 0 k (set_pml4 pdp_address t) (omega arith) (omega arith)
      ∙ bit_or-disjoint 12 (directory_address k) 0x003 (directory_address k / 2 ^ 12) (omega arith)
          (omega arith)

  pml4-entry :
      (t : PageTables)
      → IsTable pdp_address
      → (setup_identity_page_table pdp_address directory_address t).pml4_table 0
        ≡ pdp_address + 0x003
  unfolding setup_identity_page_table
  pml4-entry t table =
      set_up_from_pml4 page_directory_count 0 0 (set_pml4 pdp_address t)
      ∙ bit_or-disjoint 12 pdp_address 0x003 (pdp_address / 2 ^ 12) (omega arith) (omega arith)

  -- A memory of 64-bit words that holds the tables where the linker put them.
  pub record Holds (memory : ℕ → ℕ) (pml4_address : ℕ) (t : PageTables) : Type 0 where
    pub pml4_at : (i : ℕ) → i < 512 → memory (pml4_address + 8 * i) ≡ t.pml4_table i
    pub pdp_at : (i : ℕ) → i < 512 → memory (pdp_address + 8 * i) ≡ t.pdp_table i
    pub directory_at :
        (k i : ℕ)
        → k < page_directory_count
        → i < 512
        → memory (directory_address k + 8 * i) ≡ t.page_directory k i

  -- With tables at addresses that are aligned to 4 KiB and below 2 ^ 52, and in a memory that holds
  -- them: the walk from the upper table for a write to an address below 64 GiB ends at that address,
  -- through entries that are all present and writable. What the tables held before does not matter.
  pub setup_identity_page_table-identity :
      (t : PageTables) (memory : ℕ → ℕ) (pml4_address a : ℕ)
      → IsTable pdp_address
      → ((k : ℕ) → k < page_directory_count → IsTable (directory_address k))
      → Holds memory pml4_address (setup_identity_page_table pdp_address directory_address t)
      → a < page_directory_count * page_size_1g
      → walk memory pml4_address a ≡ some a
  setup_identity_page_table-identity t memory pml4_address a pdp directories held h =
      let k = a / page_size_1g in
      let j = a / page_size_2m % 512 in
      let directory = directories k (omega arith) in
      let index4 : a / 2 ^ 39 % 512 ≡ 0 = omega arith in
      let index3 : a / 2 ^ 30 % 512 ≡ k = omega arith in
      let e4 : memory (pml4_address + 8 * (a / 2 ^ 39 % 512)) ≡ pdp_address + 0x003 =
        rw index4 (held.pml4_at 0 (omega arith) ∙ pml4-entry t pdp) in
      let e3 : memory (pdp_address + 8 * (a / 2 ^ 30 % 512)) ≡ directory_address k + 0x003 =
        rw index3 (held.pdp_at k (omega arith) ∙ pdp-entry t k (omega arith) directory) in
      let e2 : memory (directory_address k + 8 * j) ≡ a - a % page_size_2m + 0x083 =
        held.directory_at k j (omega arith) (omega arith) ∙ directory-entry t a h in
      walk-entries memory pml4_address pdp_address (directory_address k) a pdp directory e4 e3 e2
        (omega arith)
