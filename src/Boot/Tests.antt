-- ===== src/Boot/Tests.antt =====
-- The tables of a small bootloader, set up and then extended.
use aidos.Common.{◌≡◌, refl, arith, inl}
use aidos.Boot.{
  Boot, setup_paging, map_4k, map_2m, store_entry, clear_table, load_cr3, identity_map,
}
use aidos.Boot.Same.{as_kernel, stored}
use aidos.Boot.Map.{map_4k-MapsAligned}
use aidos.Boot.Large.{MapsLarge, map_2m-MapsLarge}
use aidos.Boot.Setup.{IsLaidOut}
use aidos.Boot.Identity.{IsSetUp, setup_paging-IsSetUp}
use aidos.Paging.Map.{MapsRange}

-- Linked at 32 KiB, with memory that is not cleared.
abbrev loaded : Boot
loaded = record {
  mem = λ c. c;
  heap = record { heap_base = 0xD000; heap_size = 0x5_0000; heap_offset = 0 };
  pml4 = 0x8000;
  pdpt = 0x9000;
  pd = 0xA000;
  pt = 0xB000;
  cr3 = 0;
}

loaded-IsLaidOut : IsLaidOut loaded
loaded-IsLaidOut = record {
  heap_ok = record { room = omega arith; used = omega arith; based = omega arith };
  heap_below = omega arith;
  pml4 = record {
    nonzero = omega arith;
    aligned = refl;
    below = omega arith;
    taken = inl (omega arith);
  };
  pdpt = record {
    nonzero = omega arith;
    aligned = refl;
    below = omega arith;
    taken = inl (omega arith);
  };
  pd = record {
    nonzero = omega arith;
    aligned = refl;
    below = omega arith;
    taken = inl (omega arith);
  };
  pt = record {
    nonzero = omega arith;
    aligned = refl;
    below = omega arith;
    taken = inl (omega arith);
  };
  pml4_pdpt = λ e. omega arith;
  pml4_pd = λ e. omega arith;
  pml4_pt = λ e. omega arith;
  pdpt_pd = λ e. omega arith;
  pdpt_pt = λ e. omega arith;
  pd_pt = λ e. omega arith;
}

setup_paging-IsSetUp_example : IsSetUp (setup_paging loaded)
setup_paging-IsSetUp_example = setup_paging-IsSetUp loaded loaded-IsLaidOut

setup-room : (setup_paging loaded).heap ≡ loaded.heap
unfolding setup_paging store_entry clear_table load_cr3 identity_map
setup-room = refl

-- The kernel's pages at 1 MiB, mapped high, in the tables that `setup_paging` leaves.
map_4k-MapsAligned_example :
    MapsRange
      (λ _. Unit {0})
      0xFFFF_8000_0000_0000
      0x10_0000
      2
      0
      (as_kernel (setup_paging loaded))
      (stored (map_4k 0xFFFF_8000_0000_0000 0x10_0000 2 (setup_paging loaded)))
map_4k-MapsAligned_example =
    map_4k-MapsAligned 0xFFFF_8000_0000_0000 0x10_0000 (omega arith) (omega arith) (λ _. Unit {0}) 2
      (omega arith) (omega arith) (λ i h. tt) (setup_paging loaded)
      (IsSetUp.mapping setup_paging-IsSetUp_example) (rw setup-room (omega arith))

-- Two pages of 2 MiB at 1 GiB.
map_2m-MapsLarge_example :
    MapsLarge
      (λ _. Unit {0})
      0x4000_0000
      0x80_0000
      2
      0
      (as_kernel (setup_paging loaded))
      (as_kernel (map_2m 0x4000_0000 0x80_0000 2 (setup_paging loaded)))
map_2m-MapsLarge_example =
    map_2m-MapsLarge 0x4000_0000 0x80_0000 2 (omega arith) (omega arith) (omega arith) (omega arith)
      (λ _. Unit {0}) (setup_paging loaded) (IsSetUp.mapping setup_paging-IsSetUp_example)
      (λ j lt. tt) (rw setup-room (omega arith))
