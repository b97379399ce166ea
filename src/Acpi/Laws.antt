-- ===== src/Acpi/Laws.antt =====
-- What `parse_rsdp` reads, and what it leaves of its mapping.
use aidos.Common.{
  ℕ, zero, suc, ◌+◌, ◌*◌, ◌/◌, ◌%◌, ◌^◌, ◌≤◌, ◌<◌, ◌≡◌, ◌≢◌, ◌∙◌, refl, ap, arith, Option, none,
  some, List, [], ◌∷◌,
}
use aidos.Paging.{Kernel, ◌>>=◌, map_4k, unmap_4k, page_address}
use aidos.Paging.Mmu.{translate}
use aidos.Paging.Way.{page}
use aidos.Paging.Map.{IsMapping, map_4k-MapsRange}
use aidos.Paging.Unmap.{unmap_4k-UnmapsRange}
use aidos.Acpi.{read_bytes, copy_rsdp, parse_rsdp}

-- The bytes of physical memory from an address on.
abbrev pub bytes_at : (physical : ℕ → ℕ) → (a n : ℕ) → List ℕ
bytes_at physical a zero = []
bytes_at physical a (suc n) = physical a ∷ bytes_at physical (a + 1) n

-- Where each address of a range stands for itself, its bytes are read.
read_bytes-identity :
    (physical : ℕ → ℕ) (left a : ℕ) (s : Kernel)
    → ((i : ℕ) → i < left → translate s (a + i) ≡ some (a + i))
    → read_bytes physical left a s ≡ some (bytes_at physical a left)
unfolding read_bytes
read_bytes-identity physical zero a s maps = refl
read_bytes-identity physical (suc left) a s maps =
    let here : translate s a ≡ some a =
      let e : a + 0 ≡ a = omega arith in rw e at (maps 0 (omega arith)) in
    let rest =
      read_bytes-identity physical left (a + 1) s (λ i lt.
        let e : a + 1 + i ≡ a + suc i = omega arith in rw e (maps (suc i) (omega arith))) in
    rw (here, rest, read_bytes) refl

-- The pointer's bytes were read, its page is not mapped, and no other address changed.
pub record Parses (physical : ℕ → ℕ) (P : ℕ → Type 0) (rsdp : ℕ) (s : Kernel)
    (result : Option (List ℕ × Kernel)) : Type 0 where
  pub s' : Kernel
  pub returns : result ≡ some (bytes_at physical rsdp 40, s')
  pub mapping : IsMapping P s'
  pub unmapped : (va : ℕ) → page va ≡ page rsdp → translate s' va ≡ none
  pub others : (va : ℕ) → page va ≢ page rsdp → translate s' va ≡ translate s va

parse_rsdp-steps :
    (physical : ℕ → ℕ) (rsdp : ℕ) (s : Kernel) {s1 s2 : Kernel} {bytes : List ℕ}
    → map_4k rsdp rsdp 1 s ≡ some (tt, s1)
    → read_bytes physical 40 rsdp s1 ≡ some bytes
    → unmap_4k rsdp 1 s1 ≡ some (tt, s2)
    → parse_rsdp physical rsdp s ≡ some (bytes, s2)
unfolding parse_rsdp copy_rsdp
parse_rsdp-steps physical rsdp s mapped read unmapped =
    rw (◌>>=◌, mapped) (rw (◌>>=◌, read) (rw (◌>>=◌, unmapped) refl))

-- In a tree of tables, with six free pages of heap, no large page on the way of the pointer's page, and a
-- pointer below 2 ^ 32 whose 40 bytes do not reach into the next page, `parse_rsdp` reads the bytes that
-- firmware left there, and then maps the pointer's page nowhere and every other address as before.
pub parse_rsdp-Parses :
    (physical : ℕ → ℕ) (P : ℕ → Type 0) (rsdp : ℕ) (s : Kernel)
    → IsMapping P s
    → P (page_address rsdp 0)
    → rsdp < 2 ^ 32
    → rsdp % 4096 + 40 ≤ 4096
    → s.heap.heap_offset + 24576 ≤ s.heap.heap_size
    → Parses physical P rsdp s (parse_rsdp physical rsdp s)
parse_rsdp-Parses physical P rsdp s m p low inside room =
    let plain : (i : ℕ) → i < 1 → P (page_address rsdp i) =
      λ i lt. let e : i ≡ 0 = omega arith in rw e p in
    let first =
      map_4k-MapsRange P rsdp rsdp 1 (omega arith) (omega arith) plain s m (omega arith) in
    let second = unmap_4k-UnmapsRange P rsdp 1 (omega arith) plain first.s' first.mapping in
    let maps : (i : ℕ) → i < 40 → translate first.s' (rsdp + i) ≡ some (rsdp + i) = λ i lt.
      let e : (rsdp / 4096 + 0) * 4096 + (rsdp + i) % 4096 ≡ rsdp + i = omega arith in
      first.range.inside 0 (rsdp + i) (omega arith) (omega arith) (omega arith)
      ∙ ap (λ (t : ℕ). some t) e in
    let read = read_bytes-identity physical 40 rsdp first.s' maps in
    record {
      s' = second.s';
      returns = parse_rsdp-steps physical rsdp s first.returns read second.returns;
      mapping = second.mapping;
      unmapped = λ va e. second.range.inside 0 va (omega arith) (omega arith) (omega arith);
      others = λ va ne.
          second.range.outside va (λ j a b e. ne (omega arith))
          ∙ first.range.outside va (λ j a b e. ne (omega arith));
    }
