-- ===== src/Paging/Clone.antt =====
-- `setup_paging` of src/kernel/memory.cpp: the kernel takes the tables of the bootloader over. Each of the
-- old tables is read through the identity mapping, at its physical address, and copied into a page of the
-- kernel's heap; a page fault in these reads, where a table is not mapped to itself, is not modelled. Page 0 is
-- still mapped, so that a null pointer from `kmalloc` is written through.
mod Flags
pub mod Copy
mod Takeover
mod Entry
mod Forest
mod Walks
mod Rounds
mod Loop
pub mod Rooted
pub mod Upper
pub mod Frame
pub mod Laws
mod Tests
use aidos.Common.{
  ℕ, zero, suc, ◌+◌, ◌-◌, ◌/◌, Bool, not, ◌&&◌, ◌==◌, if◌then◌else◌, bit_and, bit_or,
}
use aidos.Mem.{Memory, write, memcpy}
use aidos.Heap.{Heap, kmalloc}
use aidos.Paging.{Kernel, entry, page_present, page_pse, addr_mask, virt_to_phys}

abbrev pub flags_mask : ℕ
flags_mask = 0x8000_0000_0000_0FFF

-- `(flags & PAGE_PRESENT) && !(flags & PAGE_PSE)`, of an entry's flags.
abbrev pub leads_on : (e : ℕ) → Bool
leads_on e =
    let flags = bit_and e flags_mask in
    not (bit_and flags page_present == 0) && (bit_and flags page_pse == 0)

-- The table that an entry of `t` leads to is copied, and the copy linked in its place, with the flags.
unfoldable pub clone_entry : (t i old_pml4 : ℕ) → Kernel → ℕ × Kernel
clone_entry t i old_pml4 s =
    let e = entry s.mem t i in
    let (new_table, heap) = kmalloc 4096 4096 s.heap in
    let copied = memcpy s.mem (new_table / 8) (bit_and e addr_mask / 8) 512 in
    let link = bit_or (virt_to_phys copied new_table old_pml4) (bit_and e flags_mask) in
    (new_table, record s { mem = write copied (t / 8 + i) link; heap = heap })

-- One of the three nested loops, over the entries of `t` from `i` on. `below` is what is done with each
-- copy, the loop inside.
unfoldable pub clone_loop :
    (below : ℕ → Kernel → Kernel) → (old_pml4 left i t : ℕ) → Kernel → Kernel
clone_loop below old_pml4 zero i t s = s
clone_loop below old_pml4 (suc left) i t s =
    let (new_table, s1) = clone_entry t i old_pml4 s in
    let cloned = clone_loop below old_pml4 left (i + 1) t (below new_table s1) in
    let next = clone_loop below old_pml4 left (i + 1) t s in
    if leads_on (entry s.mem t i) then cloned else next

-- The copies of page tables are left as they are.
abbrev pub clone_pt : ℕ → Kernel → Kernel
clone_pt t s = s

unfoldable pub clone_pd : (old_pml4 t : ℕ) → Kernel → Kernel
clone_pd old_pml4 t s = clone_loop clone_pt old_pml4 512 0 t s

unfoldable pub clone_pdpt : (old_pml4 t : ℕ) → Kernel → Kernel
clone_pdpt old_pml4 t s = clone_loop (clone_pd old_pml4) old_pml4 512 0 t s

-- `pml4[i] = 0`, from `i` on.
unfoldable pub clear_lower : (pml4 left i : ℕ) → Memory → Memory
clear_lower pml4 zero i m = m
clear_lower pml4 (suc left) i m = clear_lower pml4 left (i + 1) (write m (pml4 / 8 + i) 0)

unfoldable pub load_cr3 : (table : ℕ) → Kernel → Kernel
load_cr3 table s = record s { cr3 = table }

unfoldable pub setup_paging : (old_pml4 kernel_offset : ℕ) → Kernel → Kernel
setup_paging old_pml4 kernel_offset s =
    let copied = memcpy s.mem (s.pml4 / 8) (old_pml4 / 8) 512 in
    let lower : Kernel = record s {
      mem = clear_lower s.pml4 256 0 copied;
      kernel_offset = kernel_offset;
    } in
    let s1 = clone_loop (clone_pdpt old_pml4) old_pml4 256 256 s.pml4 lower in
    load_cr3 (virt_to_phys s1.mem s.pml4 old_pml4) s1
