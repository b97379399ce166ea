-- ===== src/Paging.antt =====
-- src/kernel/memory.cpp: the page tables of the running kernel. A table is named by the virtual
-- address through which the kernel reaches it, a multiple of 4096. The memory holds 64-bit cells,
-- numbered by byte address / 8, so that `(*t)[i]` is the cell t / 8 + i, and a `memset` or `memcpy`
-- of `sizeof(PageTable)` bytes is one of 512 cells.
pub mod Entry
pub mod Mmu
pub mod Tree
pub mod Walk
pub mod Link
pub mod Grows
pub mod Create
pub mod Way
pub mod Leaf
pub mod Large
pub mod Directory
pub mod Map
pub mod Unmap
pub mod Lookup
mod Tests
pub mod Range
pub mod Clone
use aidos.Common.{
  ℕ, zero, suc, ◌+◌, ◌*◌, ◌/◌, ◌-◌, not, Option, none, some, List, ◌∷◌, ◌==◌, if◌then◌else◌, u64,
  sub64, bit_and, bit_or, ◌>>>◌,
}
use aidos.Mem.{Memory, write, memset}
use aidos.Heap.{Heap, null, kmalloc}

abbrev pub page_present : ℕ
page_present = 1

abbrev pub page_rw : ℕ
page_rw = 2

abbrev pub page_pse : ℕ
page_pse = 0x80

abbrev pub page_size_4k : ℕ
page_size_4k = 0x1000

-- `~0xFFF`, sign-extended to 64 bits.
abbrev pub page_mask : ℕ
page_mask = 0xFFFF_FFFF_FFFF_F000

abbrev pub addr_mask : ℕ
addr_mask = 0x0000_FFFF_FFFF_F000

abbrev pub page_1g : ℕ
page_1g = 0x4000_0000

abbrev pub page_2m : ℕ
page_2m = 0x20_0000

-- The statics of the file, and the effects on the processor: `cr3`, and the addresses given to
-- `invlpg`, the latest first.
pub record Kernel : Type 0 where
  pub mem : Memory
  pub heap : Heap
  pub pml4 : ℕ
  pub kernel_offset : ℕ
  pub cr3 : ℕ
  pub flushed : List ℕ

-- A step of the kernel; `none` is a page fault, by an access through a null pointer.
abbrev pub M : Type 0 → Type 0
M A = Kernel → Option (A × Kernel)

abbrev pub pure : {A : Type 0} → A → M A
pure a s = some (a, s)

infixl 5 ◌>>=◌ ◌>>◌
abbrev pub ◌>>=◌ : {A B : Type 0} → M A → (A → M B) → M B
◌>>=◌ m f s = elim (m s) [ none ↦ none | some (a, s') ↦ f a s' ]

abbrev pub ◌>>◌ : {B : Type 0} → M (Unit {0}) → M B → M B
m >> k = m >>= λ _. k

-- `(*t)[i]`, where `t` is not null.
abbrev pub entry : Memory → (t i : ℕ) → ℕ
entry m t i = m (t / 8 + i)

unfoldable pub store_entry : (t i v : ℕ) → M (Unit {0})
store_entry t i v s =
    if t == null then none else some (tt, record s { mem = write s.mem (t / 8 + i) v })

-- The four indices of an address.
abbrev pub pml4_i : ℕ → ℕ
pml4_i va = bit_and (va >>> 39) 0x1FF

abbrev pub pdpt_i : ℕ → ℕ
pdpt_i va = bit_and (va >>> 30) 0x1FF

abbrev pub pd_i : ℕ → ℕ
pd_i va = bit_and (va >>> 21) 0x1FF

abbrev pub pt_i : ℕ → ℕ
pt_i va = bit_and (va >>> 12) 0x1FF

-- The table is cleared, and linked by its physical address.
link_table : (parent index new_table : ℕ) → Heap → Kernel → ℕ × Kernel
link_table parent index new_table heap s =
    let cleared = memset s.mem (new_table / 8) 0 512 in
    let e = bit_or (bit_or (sub64 new_table s.kernel_offset) page_present) page_rw in
    (new_table, record s { heap = heap; mem = write cleared (parent / 8 + index) e })

unfoldable pub get_or_create_table : (parent index : ℕ) → M ℕ
unfolding link_table
get_or_create_table parent index s =
    if parent == null
    then none
    else if bit_and (entry s.mem parent index) page_present == 0
    then (let (new_table, heap) = kmalloc 4096 4096 s.heap in
        if new_table == null
        then some (null, record s { heap = heap })
        else some (link_table parent index new_table heap s))
    else some (u64 (bit_and (entry s.mem parent index) page_mask + s.kernel_offset), s)

-- The body of the loop of `map_4k`, once the two addresses are known.
unfoldable pub map_4k_entry : (va pa : ℕ) → M (Unit {0})
map_4k_entry va pa = do
  pml4 ← λ s. some (s.pml4, s)
  pdpt_tbl ← get_or_create_table pml4 (pml4_i va)
  pd_tbl ← get_or_create_table pdpt_tbl (pdpt_i va)
  pt_tbl ← get_or_create_table pd_tbl (pd_i va)
  store_entry pt_tbl (pt_i va) (bit_or (bit_or pa page_present) page_rw)

-- The address of the page `i` of a range, `(base + i * PAGE_SIZE_4K) & ~0xFFF`.
abbrev pub page_address : (base i : ℕ) → ℕ
page_address base i = bit_and (u64 (base + i * page_size_4k)) page_mask

unfoldable pub map_4k_loop : (virt phys left i : ℕ) → M (Unit {0})
map_4k_loop virt phys zero i = pure tt
map_4k_loop virt phys (suc left) i = do
  map_4k_entry (page_address virt i) (page_address phys i)
  map_4k_loop virt phys left (i + 1)

unfoldable pub map_4k : (virt phys count : ℕ) → M (Unit {0})
map_4k virt phys count = map_4k_loop virt phys count 0

-- The body of the loop of `map_2m`, once the two addresses are known.
unfoldable pub map_2m_entry : (va pa : ℕ) → M (Unit {0})
map_2m_entry va pa = do
  pml4 ← λ s. some (s.pml4, s)
  pdpt_tbl ← get_or_create_table pml4 (pml4_i va)
  pd_tbl ← get_or_create_table pdpt_tbl (pdpt_i va)
  store_entry pd_tbl (pd_i va) (bit_or (bit_or (bit_or pa page_present) page_rw) page_pse)

-- The addresses go up by `PAGE_SIZE_4K` here too.
unfoldable pub map_2m_loop : (virt phys left i : ℕ) → M (Unit {0})
map_2m_loop virt phys zero i = pure tt
map_2m_loop virt phys (suc left) i = do
  map_2m_entry (page_address virt i) (page_address phys i)
  map_2m_loop virt phys left (i + 1)

unfoldable pub map_2m : (virt phys count : ℕ) → M (Unit {0})
map_2m virt phys count = map_2m_loop virt phys count 0

unfoldable pub get_table_if_exists : (parent index : ℕ) → M ℕ
get_table_if_exists parent index s =
    if parent == null
    then none
    else if bit_and (entry s.mem parent index) page_present == 0
    then some (null, s)
    else some (u64 (bit_and (entry s.mem parent index) page_mask + s.kernel_offset), s)

unfoldable pub flush_tlb_single : (va : ℕ) → M (Unit {0})
flush_tlb_single va s = some (tt, record s { flushed = va ∷ s.flushed })

-- The body of the loop of `unmap_4k`; `continue` is the end of the round.
unfoldable pub unmap_4k_entry : (virt va : ℕ) → M (Unit {0})
unmap_4k_entry virt va = do
  pml4 ← λ s. some (s.pml4, s)
  pdpt_tbl ← get_table_if_exists pml4 (pml4_i va)
  if pdpt_tbl == null then pure tt else do
    pd_tbl ← get_table_if_exists pdpt_tbl (pdpt_i va)
    if pd_tbl == null then pure tt else do
      pt_tbl ← get_table_if_exists pd_tbl (pd_i va)
      if pt_tbl == null then pure tt else do store_entry pt_tbl (pt_i va) 0; flush_tlb_single virt

unfoldable pub unmap_4k_loop : (virt left i : ℕ) → M (Unit {0})
unmap_4k_loop virt zero i = pure tt
unmap_4k_loop virt (suc left) i = do
  unmap_4k_entry virt (page_address virt i)
  unmap_4k_loop virt left (i + 1)

unfoldable pub unmap_4k : (virt count : ℕ) → M (Unit {0})
unmap_4k virt count = unmap_4k_loop virt count 0

unfoldable pub unmap_2m_entry : (virt va : ℕ) → M (Unit {0})
unmap_2m_entry virt va = do
  pml4 ← λ s. some (s.pml4, s)
  pdpt_tbl ← get_table_if_exists pml4 (pml4_i va)
  if pdpt_tbl == null then pure tt else do
    pd_tbl ← get_table_if_exists pdpt_tbl (pdpt_i va)
    if pd_tbl == null then pure tt else do store_entry pd_tbl (pd_i va) 0; flush_tlb_single virt

unfoldable pub unmap_2m_loop : (virt left i : ℕ) → M (Unit {0})
unmap_2m_loop virt zero i = pure tt
unmap_2m_loop virt (suc left) i = do
  unmap_2m_entry virt (page_address virt i)
  unmap_2m_loop virt left (i + 1)

unfoldable pub unmap_2m : (virt count : ℕ) → M (Unit {0})
unmap_2m virt count = unmap_2m_loop virt count 0

-- The tables are read through the identity mapping, so a table's pointer is its physical address.
unfoldable pub virt_to_phys : Memory → (vaddr old_pml4 : ℕ) → ℕ
virt_to_phys m vaddr old_pml4 =
    let pdpte = entry m old_pml4 (pml4_i vaddr) in
    let pde = entry m (bit_and pdpte addr_mask) (pdpt_i vaddr) in
    let pte = entry m (bit_and pde addr_mask) (pd_i vaddr) in
    let pe = entry m (bit_and pte addr_mask) (pt_i vaddr) in
    if bit_and pdpte page_present == 0
    then 0
    else if not (bit_and pdpte page_pse == 0)
    then u64 (bit_and pdpte addr_mask + bit_and vaddr (page_1g - 1))
    else if bit_and pde page_present == 0
    then 0
    else if not (bit_and pde page_pse == 0)
    then u64 (bit_and pde addr_mask + bit_and vaddr (page_2m - 1))
    else if bit_and pte page_present == 0
    then 0
    else if bit_and pe page_present == 0
    then 0
    else u64 (bit_and pe addr_mask + bit_and vaddr 0xFFF)
