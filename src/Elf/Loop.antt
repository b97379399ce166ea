-- ===== src/Elf/Loop.antt =====
-- The loop of the loader over the program headers.
use aidos.Common.{
  ℕ, zero, suc, ◌+◌, ◌*◌, ◌≤◌, ◌<◌, ◌≡◌, inl, inr, refl, arith, true, false, ◌==◌, ==_iff,
  Bool-cases, u64,
}
use aidos.Mem.{Memory}
use aidos.Elf.{
  Elf64Ehdr, Elf64Phdr, Files, Machine, pt_load, phdr_of, read_struct, load_segment, load_loop,
}
use aidos.Elf.Bytes.{phdr_of-same}
use aidos.Elf.Segment.{IsFile, LoadsSegment, read_struct-ReadsStruct, load_segment-LoadsSegment}
use aidos.Elf.Table.{
  header, Loaded, IsTable, Overlays, IsLeast, MapsAll, phys_of, less, Overlays-skip, Overlays-load,
  IsLeast-skip, IsLeast-load, MapsAll-skip, MapsAll-load,
}

module _ {S : Type 0} (fs : Files S) (stack : Memory) (IsOpen : S → Type 0) (content : Memory)
    (size : ℕ) (file : IsFile fs IsOpen content size) (data_at : ℕ) where
  -- What the loop over the headers from `i` on does.
  pub record Loads (ehdr : Elf64Ehdr) (left i phys_base : ℕ) (s : Machine S)
      (result : ℕ × Machine S) : Type 0 where
    pub memory : Overlays content ehdr left i s.mem result.1.mem
    pub base : IsLeast content ehdr data_at left i phys_base result.0
    pub maps : MapsAll content ehdr data_at left i s.calls result.1.calls
    pub open_still : IsOpen result.1.files

  module _ (ehdr : Elf64Ehdr) (table : IsTable content size ehdr) where
    -- The header that a round reads, and the state behind that read.
    record Header (i place : ℕ) (f : S) : Type 0 where
      open_still : IsOpen (read_struct fs stack place 56 f).1
      is_header : phdr_of (read_struct fs stack place 56 f).0 ≡ header content ehdr i

    read-Header :
        (i : ℕ) (f : S)
        → i < ehdr.e_phnum
        → IsOpen f
        → Header i (u64 (ehdr.e_phoff + i * ehdr.e_phentsize)) f
    read-Header i f lt is_open =
        let place = ehdr.e_phoff + i * ehdr.e_phentsize in
        let ends : place + 56 < size = table.entries i lt in
        let word : u64 place ≡ place = omega (arith, file.short) in
        let r =
          read_struct-ReadsStruct fs stack IsOpen content size file place 56 f is_open (omega arith)
            ends in
        rw word (record {
          open_still = r.open_still;
          is_header =
              phdr_of-same (read_struct fs stack place 56 f).0 (λ c. content (place + c)) 56 r.holds
                refl;
        })

    abbrev behind : ℕ → Machine S → Machine S
    behind i s = record {
      files = (read_struct fs stack (u64 (ehdr.e_phoff + i * ehdr.e_phentsize)) 56 s.files).1;
      mem = s.mem;
      calls = s.calls;
    }

    load_loop-skip :
        (left i base : ℕ) (s : Machine S)
        → phdr_of (read_struct fs stack (u64 (ehdr.e_phoff + i * ehdr.e_phentsize)) 56 s.files).0
          ≡ header content ehdr i
        → (Elf64Phdr.p_type (header content ehdr i) == pt_load) ≡ false
        → load_loop fs stack data_at ehdr (suc left) i base s
          ≡ load_loop fs stack data_at ehdr left (i + 1) base (behind i s)
    unfolding load_loop
    load_loop-skip left i base s e other = rw (e, other, load_loop) refl

    load_loop-load :
        (left i base : ℕ) (s : Machine S)
        → phdr_of (read_struct fs stack (u64 (ehdr.e_phoff + i * ehdr.e_phentsize)) 56 s.files).0
          ≡ header content ehdr i
        → (Elf64Phdr.p_type (header content ehdr i) == pt_load) ≡ true
        → load_loop fs stack data_at ehdr (suc left) i base s ≡ (
            let h = header content ehdr i in
            load_loop fs stack data_at ehdr left
              (i + 1)
              (less (phys_of data_at h) base)
              (load_segment fs stack h (phys_of data_at h) (behind i s)))
    unfolding load_loop
    load_loop-load left i base s e load = rw (e, load, load_loop) refl

    Loads-skip :
        (left i base : ℕ) (s s1 : Machine S) (result : ℕ × Machine S)
        → (Loaded (header content ehdr i) → ⊥)
        → s1.mem ≡ s.mem
        → s1.calls ≡ s.calls
        → Loads ehdr left (i + 1) base s1 result
        → Loads ehdr (suc left) i base s result
    Loads-skip left i base s s1 result other same_mem same_calls rest = record {
      memory =
          Overlays-skip content ehdr left i s.mem s.mem result.1.mem other
            (rw same_mem at rest.memory);
      base = IsLeast-skip content ehdr data_at left i base result.0 other rest.base;
      maps =
          MapsAll-skip content ehdr data_at left i s.calls s.calls result.1.calls other
            (rw same_calls at rest.maps);
      open_still = rest.open_still;
    }

    Loads-load :
        (left i base : ℕ) (s s1 s2 : Machine S) (result : ℕ × Machine S)
        → Loaded (header content ehdr i)
        → s1.mem ≡ s.mem
        → s1.calls ≡ s.calls
        → (let h = header content ehdr i in
            LoadsSegment fs stack IsOpen content size file h (phys_of data_at h) s1 s2)
        → Loads ehdr left (i + 1) (less (phys_of data_at (header content ehdr i)) base) s2 result
        → Loads ehdr (suc left) i base s result
    Loads-load left i base s s1 s2 result load same_mem same_calls first rest = record {
      memory =
          Overlays-load content ehdr left i s.mem s2.mem result.1.mem load
            (rw same_mem at first.holds) rest.memory;
      base = IsLeast-load content ehdr data_at left i base result.0 load rest.base;
      maps =
          MapsAll-load content ehdr data_at left i s.calls s2.calls result.1.calls
            (rw same_calls at first.maps) rest.maps;
      open_still = rest.open_still;
    }

    pub load_loop-Loads :
        (left i base : ℕ) (s : Machine S)
        → i + left ≤ ehdr.e_phnum
        → IsOpen s.files
        → Loads ehdr left i base s (load_loop fs stack data_at ehdr left i base s)
    load_loop-Loads zero i base s h is_open =
        unfold load_loop in
        record {
          memory = record { holds = λ k j a b. absurd (omega arith); kept = λ a out. refl };
          base = record {
            below = omega arith;
            least = λ k a b. absurd (omega arith);
            attained = inl refl;
          };
          maps = record { mapped = λ k a b. absurd (omega arith); keeps = λ call among. among };
          open_still = is_open;
        }
    load_loop-Loads (suc left) i base s h is_open =
        let r = read-Header i s.files (omega arith) is_open in
        let hdr = header content ehdr i in
        elim (Bool-cases (Elf64Phdr.p_type hdr == pt_load)) [
          | inr ne ↦
              let other : Loaded hdr → ⊥ = λ load. absurd (ground arith) in
              rw (load_loop-skip left i base s r.is_header ne) (
                Loads-skip left i base s (behind i s) _ other refl refl
                  (load_loop-Loads left (i + 1) base (behind i s) (omega arith) r.open_still))
          | inl eq ↦
              let load : Loaded hdr = (==_iff (Elf64Phdr.p_type hdr) pt_load).0 eq in
              let inside = table.segments i (omega arith) load in
              let first =
                load_segment-LoadsSegment fs stack IsOpen content size file hdr
                  (phys_of data_at hdr) (behind i s) r.open_still inside in
              let s2 = load_segment fs stack hdr (phys_of data_at hdr) (behind i s) in
              rw (load_loop-load left i base s r.is_header eq) (
                Loads-load left i base s (behind i s) s2 _ load refl refl first (
                  load_loop-Loads left (i + 1) (less (phys_of data_at hdr) base) s2 (omega arith)
                    first.open_still))
        ]
