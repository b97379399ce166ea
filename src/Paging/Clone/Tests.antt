-- ===== src/Paging/Clone/Tests.antt =====
-- The old tables of a small bootloader, and a kernel at 1 MiB.
use aidos.Common.{◌+◌, ◌/◌, refl, arith, inl, []}
use aidos.Mem.{Memory, write}
use aidos.Paging.{Kernel}
use aidos.Paging.Lookup.{IsOrdinary}
use aidos.Paging.Clone.{setup_paging}
use aidos.Paging.Clone.Laws.{IsReady, TakesOver, setup_paging-TakesOver}

-- Four tables from 0x8000 on, by which the pages of the kernel are mapped high.
abbrev old_tables : Memory
old_tables =
    write
      (write (write (write (λ _. 0) (0x8000 / 8 + 256) 0x9003) (0x9000 / 8) 0xA003) (0xA000 / 8)
        0xB003)
      (0xB000 / 8 + 256) 0x20_0003

abbrev started : Kernel
started = record {
  mem = old_tables;
  heap = record { heap_base = 0xFFFF_8000_0020_0000; heap_size = 0x10_0000; heap_offset = 0 };
  pml4 = 0xFFFF_8000_0010_0000;
  kernel_offset = 0;
  cr3 = 0x8000;
  flushed = [];
}

started-IsOrdinary : IsOrdinary old_tables 0xFFFF_8000_0010_0000 0x8000
started-IsOrdinary = omega arith

started-IsReady :
    IsReady 0xFFFF_8000_0020_0000 0xFFFF_8000_0030_0000
      (omega arith)
      0x8000
      0xFFFF_7FFF_FFF0_0000
      started
started-IsReady = record {
  heap_on = record {
    heap_ok = record { room = omega arith; used = omega arith; based = omega arith };
    base_ok = refl;
    end_ok = refl;
  };
  aligned = refl;
  real = omega arith;
  apart = inl (omega arith);
  ordinary = started-IsOrdinary;
  safe4 = omega arith;
  safe3 = omega arith;
  safe2 = omega arith;
  safe1 = omega arith;
  above = omega arith;
  below = omega arith;
  whole = omega arith;
}

setup_paging-TakesOver_example :
    TakesOver 0xFFFF_8000_0020_0000 0xFFFF_8000_0030_0000
      (omega arith)
      0x8000
      0xFFFF_7FFF_FFF0_0000
      started
      (setup_paging 0x8000 0xFFFF_7FFF_FFF0_0000 started)
setup_paging-TakesOver_example =
    setup_paging-TakesOver 0xFFFF_8000_0020_0000 0xFFFF_8000_0030_0000 (omega arith) 0x8000
      0xFFFF_7FFF_FFF0_0000 started started-IsReady
