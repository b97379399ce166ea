-- ===== src/Heap.antt =====
-- The bump allocator: `kmalloc` of src/kernel/memory.cpp, which src/bootloader/stage2/memory.cpp
-- holds too, word for word. The three statics are the fields of the state; a pointer is a 64-bit
-- number and `nullptr` is 0. `operator new` is `kmalloc` with alignment 8 and `delete` does nothing.
pub mod Laws
pub mod Blocks
mod Tests
use aidos.Common.{ℕ, ◌+◌, ◌-◌, ◌^◌, leb, if◌then◌else◌, u64, sub64, bit_and}

pub record Heap : Type 0 where
  pub heap_base : ℕ
  pub heap_size : ℕ
  pub heap_offset : ℕ

-- `~x` on 64 bits.
abbrev pub bit_not64 : ℕ → ℕ
bit_not64 x = 2 ^ 64 - 1 - x

abbrev pub null : ℕ
null = 0

unfoldable pub kmalloc : (size align : ℕ) → Heap → ℕ × Heap
kmalloc size align h =
    let current = u64 (h.heap_base + h.heap_offset) in
    let aligned = bit_and (u64 (current + sub64 align 1)) (bit_not64 (sub64 align 1)) in
    let next_offset = u64 (sub64 aligned h.heap_base + size) in
    if leb h.heap_size next_offset
    then (null, h)
    else (aligned, record h { heap_offset = next_offset })

unfoldable pub operator_new : (size : ℕ) → Heap → ℕ × Heap
operator_new size h = kmalloc size 8 h

unfoldable pub operator_new_aligned : (size align : ℕ) → Heap → ℕ × Heap
operator_new_aligned size align h = kmalloc size align h

unfoldable pub operator_delete : (ptr : ℕ) → Heap → Heap
operator_delete ptr h = h
