-- ===== src/Paging/Tests.antt =====
-- The walk at one address, with the tables one after the other from 0x1000 on.
use os_jisaku.Paging.{PageTables, setup_identity_page_table, zero_tables}
use os_jisaku.Paging.Identity.{Holds, setup_identity_page_table-identity, walk}
use os_jisaku.Prelude.{
  arith, false, true, if◌then◌else◌, ltb, some, ℕ, ◌%◌, ◌*◌, ◌+◌, ◌-◌, ◌/◌, ◌≡◌,
}

abbrev directories : ℕ → ℕ
directories i = 0x3000 + i * 0x1000

abbrev tables : PageTables
tables = setup_identity_page_table 0x2000 directories zero_tables

-- The upper table at 0x1000, the next one at 0x2000, and the directories from 0x3000 on.
abbrev memory : ℕ → ℕ
memory address =
    if ltb address 0x2000
    then tables.pml4_table ((address - 0x1000) / 8)
    else if ltb address 0x3000
    then tables.pdp_table ((address - 0x2000) / 8)
    else tables.page_directory ((address - 0x3000) / 0x1000) ((address - 0x3000) % 0x1000 / 8)

held : Holds 0x2000 directories memory 0x1000 tables
held = record {
  pml4_at = λ i h.
      let here : ltb (0x1000 + 8 * i) 0x2000 ≡ true = ground arith in
      let index : (0x1000 + 8 * i - 0x1000) / 8 ≡ i = omega arith in rw (here, index);
  pdp_at = λ i h.
      let above : ltb (0x2000 + 8 * i) 0x2000 ≡ false = ground arith in
      let here : ltb (0x2000 + 8 * i) 0x3000 ≡ true = ground arith in
      let index : (0x2000 + 8 * i - 0x2000) / 8 ≡ i = omega arith in rw (above, here, index);
  directory_at = λ k i hk hi.
      let above : ltb (0x3000 + k * 0x1000 + 8 * i) 0x2000 ≡ false = ground arith in
      let beyond : ltb (0x3000 + k * 0x1000 + 8 * i) 0x3000 ≡ false = ground arith in
      let table : (0x3000 + k * 0x1000 + 8 * i - 0x3000) / 0x1000 ≡ k = omega arith in
      let index : (0x3000 + k * 0x1000 + 8 * i - 0x3000) % 0x1000 / 8 ≡ i = omega arith in
      rw (above, beyond, table, index);
}

setup_identity_page_table-identity_example : walk memory 0x1000 0xc0812345 ≡ some 0xc0812345
setup_identity_page_table-identity_example =
    setup_identity_page_table-identity 0x2000 directories zero_tables memory 0x1000 0xc0812345
      (omega arith) (λ k h. omega arith) held (omega arith)
