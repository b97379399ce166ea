-- ===== src/Mem.antt =====
-- src/bootloader/stage2/memory.hpp and src/kernel/memory.hpp: `memcmp`, `memcpy` and `memset`, which
-- are the same text in both. A memory gives the content of each cell; a pointer is a cell's number.
-- The `for` loops recur on the rounds left, with the index `i` beside them.
pub mod Laws
mod Tests
use aidos.Common.{
  ℕ, zero, suc, ◌+◌, List, Bool, true, false, ltb, ◌==◌, if◌then◌else◌, u8, ℤ, pos, negsuc,
}

abbrev pub Memory : Type 0
Memory = ℕ → ℕ

abbrev pub write : Memory → ℕ → ℕ → Memory
write m p v a = if a == p then v else m a

memcmp_loop : Memory → (a b left i : ℕ) → ℤ
memcmp_loop m a b zero i = pos 0
memcmp_loop m a b (suc left) i =
    let rest = memcmp_loop m a b left (i + 1) in
    if m (a + i) == m (b + i) then rest else if ltb (m (a + i)) (m (b + i)) then negsuc 0 else pos 1

unfoldable pub memcmp : Memory → (ptr1 ptr2 num : ℕ) → ℤ
unfolding memcmp_loop
memcmp m ptr1 ptr2 num = memcmp_loop m ptr1 ptr2 num 0

memcpy_loop : (dest src left i : ℕ) → Memory → Memory
memcpy_loop dest src zero i m = m
memcpy_loop dest src (suc left) i m =
    memcpy_loop dest src left (i + 1) (write m (dest + i) (m (src + i)))

unfoldable pub memcpy : Memory → (dest src num : ℕ) → Memory
unfolding memcpy_loop
memcpy m dest src num = memcpy_loop dest src num 0 m

memset_loop : (ptr v left i : ℕ) → Memory → Memory
memset_loop ptr v zero i m = m
memset_loop ptr v (suc left) i m = memset_loop ptr v left (i + 1) (write m (ptr + i) v)

unfoldable pub memset : Memory → (ptr value num : ℕ) → Memory
unfolding memset_loop
memset m ptr value num = memset_loop ptr (u8 value) num 0 m
