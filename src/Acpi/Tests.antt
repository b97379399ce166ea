-- ===== src/Acpi/Tests.antt =====
-- The pointer of a small machine, with an empty PML4.
use aidos.Common.{ℕ, ◌<◌, refl, arith, inl, ◌==◌, if◌then◌else◌, []}
use aidos.Paging.{Kernel}
use aidos.Paging.Tree.{IsTree, InWindow}
use aidos.Paging.Map.{IsMapping}
use aidos.Acpi.{parse_rsdp}
use aidos.Acpi.Laws.{Parses, parse_rsdp-Parses}

abbrev kernel : Kernel
kernel = record {
  mem = λ _. 0;
  heap = record { heap_base = 0x30_0000; heap_size = 0x10_0000; heap_offset = 0 };
  pml4 = 0x20_0000;
  kernel_offset = 0;
  cr3 = 0x20_0000;
  flushed = [];
}

abbrev pml4_level : ℕ → ℕ
pml4_level t = if t == 0x20_0000 then 4 else 0

kernel_window : (t : ℕ) → 0 < pml4_level t → InWindow kernel t
kernel_window t pos = ground arith

kernel-IsTree : IsTree kernel pml4_level (λ _. 0)
kernel-IsTree = record {
  heap_ok = omega arith;
  heap_above = omega arith;
  heap_below = omega arith;
  heap_whole = omega arith;
  offset_aligned = omega arith;
  root = refl;
  root_prefix = refl;
  window = kernel_window;
  taken = λ t pos. inl (ground arith);
  small = λ t i pos h leads. omega arith;
  below = λ t i pos h leads. absurd (omega arith);
  below_prefix = λ t i pos h leads. absurd (omega arith);
}

kernel-IsMapping : IsMapping (λ _. Unit {0}) kernel
kernel-IsMapping = record {
  level = pml4_level;
  prefix = λ _. 0;
  tree = kernel-IsTree;
  plain = λ va p n t lv pre there. absurd (omega arith);
}

parse_rsdp-Parses_example :
    Parses (λ a. a) (λ _. Unit {0}) 0xF_5AE0 kernel (parse_rsdp (λ a. a) 0xF_5AE0 kernel)
parse_rsdp-Parses_example =
    parse_rsdp-Parses (λ a. a) (λ _. Unit {0}) 0xF_5AE0 kernel kernel-IsMapping tt (omega arith)
      (omega arith) (omega arith)
