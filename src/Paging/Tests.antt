-- ===== src/Paging/Tests.antt =====
-- The paging theorems at concrete tables.
use mathlib.Core.Option
use aidos.Common.{
  ℕ, ◌+◌, ◌*◌, ◌/◌, ◌%◌, ◌^◌, ◌<◌, ◌≡◌, refl, arith, some, ◌==◌, if◌then◌else◌, inl, [],
}
use aidos.Mem.{Memory, write}
use aidos.Paging.{Kernel, map_4k, unmap_4k, unmap_2m, page_address, virt_to_phys}
use aidos.Paging.Mmu.{walk}
use aidos.Paging.Tree.{IsTree, InWindow}
use aidos.Paging.Create.{Got, get_or_create_table-Got}
use aidos.Paging.Map.{IsMapping, MapsRange, map_4k-MapsRange}
use aidos.Paging.Unmap.{UnmapsRange, unmap_4k-UnmapsRange}
use aidos.Paging.Unmap.Regions.{UnmapsRegions, unmap_2m-UnmapsRegions}
use aidos.Paging.Lookup.{
  identity, IsOrdinary, virt_to_phys-walk, IsUnderLarge, virt_to_phys_large, e2,
}

-- A kernel loaded at 1 MiB, with an empty PML4.
abbrev fresh_kernel : Kernel
fresh_kernel = record {
  mem = λ _. 0;
  heap = record { heap_base = 0xFFFF_8000_0030_0000; heap_size = 0x10_0000; heap_offset = 0x10 };
  pml4 = 0xFFFF_8000_0020_0000;
  kernel_offset = 0xFFFF_7FFF_FFF0_0000;
  cr3 = 0x30_0000;
  flushed = [];
}

abbrev only_pml4 : ℕ → ℕ
only_pml4 t = if t == 0xFFFF_8000_0020_0000 then 4 else 0

fresh_window : (t : ℕ) → 0 < only_pml4 t → InWindow fresh_kernel t
fresh_window t pos = ground arith

fresh-IsTree : IsTree fresh_kernel only_pml4 (λ _. 0)
fresh-IsTree = record {
  heap_ok = omega arith;
  heap_above = omega arith;
  heap_below = omega arith;
  heap_whole = omega arith;
  offset_aligned = omega arith;
  root = refl;
  root_prefix = refl;
  window = fresh_window;
  taken = λ t pos. inl (ground arith);
  small = λ t i pos h leads. omega arith;
  below = λ t i pos h leads. absurd (omega arith);
  below_prefix = λ t i pos h leads. absurd (omega arith);
}

fresh-IsMapping : IsMapping (λ _. Unit {0}) fresh_kernel
fresh-IsMapping = record {
  level = only_pml4;
  prefix = λ _. 0;
  tree = fresh-IsTree;
  plain = λ va p n t lv pre there. absurd (omega arith);
}

get_or_create_table-Got_example : Got fresh_kernel only_pml4 (λ _. 0) 0xFFFF_8000_0020_0000 3
get_or_create_table-Got_example =
    get_or_create_table-Got fresh_kernel fresh-IsTree 0xFFFF_8000_0020_0000 3 (omega arith)
      (omega arith) (λ there. absurd (omega arith)) (omega arith)

map_4k-MapsRange_example :
    MapsRange
      (λ _. Unit {0})
      0xFEE0_0000
      0xFEC0_0000
      2
      0
      fresh_kernel
      (map_4k 0xFEE0_0000 0xFEC0_0000 2 fresh_kernel)
map_4k-MapsRange_example =
    map_4k-MapsRange (λ _. Unit {0}) 0xFEE0_0000 0xFEC0_0000 2 (omega arith) (omega arith)
      (λ i h. tt) fresh_kernel fresh-IsMapping (omega arith)

unmap_4k-UnmapsRange_example :
    UnmapsRange (λ _. Unit {0}) 0xFEE0_0000 3 0 fresh_kernel (unmap_4k 0xFEE0_0000 3 fresh_kernel)
unmap_4k-UnmapsRange_example =
    unmap_4k-UnmapsRange (λ _. Unit {0}) 0xFEE0_0000 3 (omega arith) (λ i h. tt) fresh_kernel
      fresh-IsMapping

-- The tables with two pages mapped.
abbrev two_pages :
    MapsRange
      (λ _. Unit {0})
      0xFEE0_0000
      0xFEC0_0000
      2
      0
      fresh_kernel
      (map_4k 0xFEE0_0000 0xFEC0_0000 2 fresh_kernel)
two_pages =
    map_4k-MapsRange (λ _. Unit {0}) 0xFEE0_0000 0xFEC0_0000 2 (omega arith) (omega arith)
      (λ i h. tt) fresh_kernel fresh-IsMapping (omega arith)

unmap_2m-UnmapsRegions_example :
    UnmapsRegions two_pages.mapping.level two_pages.mapping.prefix 0xFEE0_0000 2 0 two_pages.s'
      (unmap_2m 0xFEE0_0000 2 two_pages.s')
unmap_2m-UnmapsRegions_example =
    unmap_2m-UnmapsRegions two_pages.mapping.level two_pages.mapping.prefix 0xFEE0_0000 2
      two_pages.s' two_pages.mapping.tree
      (λ j lt n t pos. two_pages.mapping.plain (page_address 0xFEE0_0000 j) tt n t)

-- Four tables, and a page at 0x7000 mapped at 0x5000.
abbrev small_tables : Memory
small_tables =
    write
      (write (write (write (λ _. 0) (0x1000 / 8) 0x2003) (0x2000 / 8) 0x3003) (0x3000 / 8) 0x4003)
      (0x4000 / 8 + 5) 0x7003

small-IsOrdinary : IsOrdinary small_tables 0x5123 0x1000
small-IsOrdinary = omega arith

virt_to_phys-walk_example :
    virt_to_phys small_tables 0x5123 0x1000
    ≡ Option.get_or (walk (identity small_tables) 4 0x1000 0x5123) 0
virt_to_phys-walk_example = virt_to_phys-walk small_tables 0x5123 0x1000 small-IsOrdinary

small_lookup : virt_to_phys small_tables 0x5123 0x1000 ≡ 0x7123
unfolding virt_to_phys
small_lookup = refl

-- The same with a large page at 2 MiB, mapped at 0.
abbrev large_tables : Memory
large_tables =
    write (write (write (λ _. 0) (0x1000 / 8) 0x2003) (0x2000 / 8) 0x3003) (0x3000 / 8) 0x20_0083

large-IsUnderLarge : IsUnderLarge large_tables 0x5123 0x1000
large-IsUnderLarge = omega arith

virt_to_phys_large_example :
    (virt_to_phys large_tables 0x5123 0x1000 ≡ 0)
    × (walk (identity large_tables) 4 0x1000 0x5123
        ≡ some (e2 large_tables 0x5123 0x1000 / 2 ^ 21 % 2 ^ 31 * 2 ^ 21 + 0x5123 % 2 ^ 21))
virt_to_phys_large_example = virt_to_phys_large large_tables 0x5123 0x1000 large-IsUnderLarge
