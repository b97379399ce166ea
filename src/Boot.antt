-- ===== src/Boot.antt =====
-- src/bootloader/stage2/memory.cpp: the page tables of the bootloader. Its memory is mapped to itself,
-- so that a table's pointer is its physical address, and page 0 can be written: where the kernel's code
-- tests a pointer, this one goes on with page 0. Cells and tables are those of Paging.
pub mod Same
pub mod Map
pub mod Large
pub mod Setup
pub mod Entries
pub mod Identity
mod Tests
use aidos.Common.{ℕ, zero, suc, ◌+◌, ◌*◌, ◌/◌, ◌==◌, if◌then◌else◌, u64, bit_and, bit_or}
use aidos.Mem.{Memory, write, memset}
use aidos.Heap.{Heap, kmalloc}
use aidos.Paging.{
  entry, page_present, page_rw, page_pse, page_size_4k, page_mask, pml4_i, pdpt_i, pd_i, pt_i,
}

abbrev pub page_size_2m : ℕ
page_size_2m = 0x20_0000

-- The memory, the heap, the addresses of the four static tables, and the register CR3.
pub record Boot : Type 0 where
  pub mem : Memory
  pub heap : Heap
  pub pml4 : ℕ
  pub pdpt : ℕ
  pub pd : ℕ
  pub pt : ℕ
  pub cr3 : ℕ

unfoldable pub store_entry : (t i v : ℕ) → Boot → Boot
store_entry t i v s = record s { mem = write s.mem (t / 8 + i) v }

-- `memset(t, 0, sizeof(t))`
unfoldable pub clear_table : (t : ℕ) → Boot → Boot
clear_table t s = record s { mem = memset s.mem (t / 8) 0 512 }

unfoldable pub load_cr3 : (table : ℕ) → Boot → Boot
load_cr3 table s = record s { cr3 = table }

abbrev pub table_flags : ℕ → ℕ
table_flags a = bit_or (bit_or a page_present) page_rw

-- The loop over the first MiB: `left` pages, from page `i / PAGE_SIZE_4K` on.
unfoldable pub identity_loop : (pt left i : ℕ) → Memory → Memory
identity_loop pt zero i m = m
identity_loop pt (suc left) i m =
    identity_loop pt left (i + page_size_4k) (write m (pt / 8 + i / page_size_4k) (table_flags i))

unfoldable pub identity_map : Boot → Boot
identity_map s = record s { mem = identity_loop s.pt (0x10_0000 / page_size_4k) 0 s.mem }

unfoldable pub setup_paging : Boot → Boot
setup_paging s =
    let s = clear_table s.pt (clear_table s.pd (clear_table s.pdpt (clear_table s.pml4 s))) in
    let s = store_entry s.pml4 0 (table_flags s.pdpt) s in
    let s = store_entry s.pdpt 0 (table_flags s.pd) s in
    let s = store_entry s.pd 0 (table_flags s.pt) s in load_cr3 s.pml4 (identity_map s)

unfoldable pub get_pml4 : Boot → ℕ
get_pml4 s = s.pml4

unfoldable pub get_or_create_table : (parent index : ℕ) → Boot → ℕ × Boot
get_or_create_table parent index s =
    if bit_and (entry s.mem parent index) page_present == 0
    then (let (new_table, heap) = kmalloc 4096 4096 s.heap in
        let s = clear_table new_table (record s { heap = heap }) in
        (new_table, store_entry parent index (table_flags new_table) s))
    else (bit_and (entry s.mem parent index) page_mask, s)

-- The body of the loop of `map_4k`, once the two addresses are known.
unfoldable pub map_4k_entry : (va pa : ℕ) → Boot → Boot
map_4k_entry va pa s =
    let (pdpt_tbl, s) = get_or_create_table s.pml4 (pml4_i va) s in
    let (pd_tbl, s) = get_or_create_table pdpt_tbl (pdpt_i va) s in
    let (pt_tbl, s) = get_or_create_table pd_tbl (pd_i va) s in
    store_entry pt_tbl (pt_i va) (table_flags pa) s

unfoldable pub map_4k_loop : (virt phys left i : ℕ) → Boot → Boot
map_4k_loop virt phys zero i s = s
map_4k_loop virt phys (suc left) i s =
    let va = u64 (virt + i * page_size_4k) in
    let pa = u64 (phys + i * page_size_4k) in
    map_4k_loop virt phys left (i + 1) (map_4k_entry va pa s)

unfoldable pub map_4k : (virt phys count : ℕ) → Boot → Boot
map_4k virt phys count s = map_4k_loop virt phys count 0 s

-- The body of the loop of `map_2m`.
unfoldable pub map_2m_entry : (va pa : ℕ) → Boot → Boot
map_2m_entry va pa s =
    let (pdpt_tbl, s) = get_or_create_table s.pml4 (pml4_i va) s in
    let (pd_tbl, s) = get_or_create_table pdpt_tbl (pdpt_i va) s in
    store_entry pd_tbl (pd_i va) (bit_or (table_flags pa) page_pse) s

unfoldable pub map_2m_loop : (virt phys left i : ℕ) → Boot → Boot
map_2m_loop virt phys zero i s = s
map_2m_loop virt phys (suc left) i s =
    let va = u64 (virt + i * page_size_2m) in
    let pa = u64 (phys + i * page_size_2m) in
    map_2m_loop virt phys left (i + 1) (map_2m_entry va pa s)

unfoldable pub map_2m : (virt phys count : ℕ) → Boot → Boot
map_2m virt phys count s = map_2m_loop virt phys count 0 s
