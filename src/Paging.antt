-- ===== src/Paging.antt =====
-- kernel/paging.hpp and paging.cpp: the identity mapping with pages of 2 MiB. The addresses of the
-- tables, which the linker chooses, are parameters: the one of the upper table, and the one of each
-- page directory.
pub mod Identity
mod Tests
use os_jisaku.Prelude.{bit_or, if◌then◌else◌, ltb, suc, zero, ℕ, ◌&&◌, ◌*◌, ◌+◌, ◌==◌}

abbrev pub page_size_4k : ℕ
page_size_4k = 4096

abbrev pub page_size_2m : ℕ
page_size_2m = 512 * page_size_4k

abbrev pub page_size_1g : ℕ
page_size_1g = 512 * page_size_2m

abbrev pub page_directory_count : ℕ
page_directory_count = 64

-- The tables, entry by entry.
pub record PageTables : Type 0 where
  pub pml4_table : ℕ → ℕ
  pub pdp_table : ℕ → ℕ
  pub page_directory : ℕ → ℕ → ℕ

-- Three static arrays that hold zeros until they are written.
abbrev pub zero_tables : PageTables
zero_tables = record { pml4_table = λ i. 0; pdp_table = λ i. 0; page_directory = λ i j. 0 }

-- `page_directory[i][j] = ...`, for every `j` of the inner loop.
abbrev pub set_directory : ℕ → PageTables → PageTables
set_directory i t = record t {
  page_directory = λ i' j.
      if i' == i && ltb j 512
      then bit_or (i * page_size_1g + j * page_size_2m) 0x083
      else t.page_directory i' j;
}

-- `pml4_table[0] = ...`.
abbrev pub set_pml4 : ℕ → PageTables → PageTables
set_pml4 pdp_address t = record t {
  pml4_table = λ i. if i == 0 then bit_or pdp_address 0x003 else t.pml4_table i;
}

module _ (pdp_address : ℕ) (directory_address : ℕ → ℕ) where
  -- The outer loop, with `left` rounds to go.
  unfoldable pub set_up_from : ℕ → ℕ → PageTables → PageTables
  set_up_from zero i t = t
  set_up_from (suc left) i t = set_up_from left (i + 1) (
      set_directory i (record t {
        pdp_table = λ i'. if i' == i then bit_or (directory_address i) 0x003 else t.pdp_table i';
      }))

  unfoldable pub setup_identity_page_table : PageTables → PageTables
  unfolding set_up_from
  setup_identity_page_table t = set_up_from page_directory_count 0 (set_pml4 pdp_address t)
