-- ===== src/Acpi.antt =====
-- src/kernel/dev/acpi: the ACPI tables. A pointer is followed by the processor's walk; the bytes of
-- physical memory, which the firmware wrote, are a parameter.
pub mod Laws
mod Tests
use aidos.Common.{ℕ, zero, suc, ◌+◌, Option, none, some, List, [], ◌∷◌}
use aidos.Paging.{Kernel, M, ◌>>=◌, ◌>>◌, map_4k, unmap_4k}
use aidos.Paging.Mmu.{translate}

-- `sizeof(AcpiRsdp)`: 36 bytes, and four of padding behind them.
abbrev pub rsdp_size : ℕ
rsdp_size = 40

-- The source of a `memcpy`, byte by byte from the address `a` on; `none` is a page fault.
unfoldable pub read_bytes : (physical : ℕ → ℕ) → (left a : ℕ) → Kernel → Option (List ℕ)
read_bytes physical zero a s = some []
read_bytes physical (suc left) a s =
    let rest = read_bytes physical left (a + 1) s in
    elim (translate s a) [
      | none ↦ none
      | some pa ↦ elim rest [ none ↦ none | some bytes ↦ some (physical pa ∷ bytes) ]
    ]

unfoldable pub copy_rsdp : (physical : ℕ → ℕ) → (rsdp : ℕ) → M (List ℕ)
copy_rsdp physical rsdp s = elim (read_bytes physical rsdp_size rsdp s) [
  | none ↦ none
  | some bytes ↦ some (bytes, s)
]

-- The bytes of the field `_rsdp`.
unfoldable pub parse_rsdp : (physical : ℕ → ℕ) → (rsdp : ℕ) → M (List ℕ)
parse_rsdp physical rsdp = do
  map_4k rsdp rsdp 1
  bytes ← copy_rsdp physical rsdp
  unmap_4k rsdp 1
  λ s. some (bytes, s)

-- The constructor of `ACPI`.
unfoldable pub acpi : (physical : ℕ → ℕ) → (rsdp : ℕ) → M (List ℕ)
acpi physical rsdp = parse_rsdp physical rsdp
