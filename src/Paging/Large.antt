-- ===== src/Paging/Large.antt =====
-- The body of `map_2m`: a page of 2 MiB.
use aidos.Common.{
  ℕ, ◌+◌, ◌*◌, ◌/◌, ◌%◌, ◌^◌, ◌≤◌, ◌<◌, ◌≡◌, ◌≢◌, refl, arith, Option, some, true, ◌∙◌, bit_or,
}
use aidos.Common.Bits.{bit_or_step}
use aidos.Paging.{Kernel, store_entry, get_or_create_table, map_2m_entry, ◌>>=◌}
use aidos.Paging.Entry.{index_bits, with_flags, or_one}
use aidos.Paging.Mmu.{index_at, translate, is_present, is_large}
use aidos.Paging.Tree.{IsTree, walk-suc, Leads}
use aidos.Paging.Way.{Way, root, Way-level, Way-walk}
use aidos.Paging.Map.{IsMapping, SameBut, down}
use aidos.Paging.Directory.{
  region, SendsRegion, entry_state, store_entry-directory, directory-IsTree, directory-IsPlain,
  here-Way, at_entry, directory-SendsRegion,
}

-- What the entry of a page of 2 MiB says, for the addresses of its region.
abbrev large_target : ℕ → ℕ → Option ℕ
large_target v va' = some (v / 2 ^ 21 % 2 ^ 31 * 2 ^ 21 + va' % 2 ^ 21)

module _ (s : Kernel) {level prefix : ℕ → ℕ} (tree : IsTree s level prefix) (va t v : ℕ)
    (way : Way s va 2 t) (present : v % 2 ≡ 1) (large : v / 128 % 2 ≡ 1) where
  ends : Leads v → ⊥
  ends leads = omega (arith, leads, large)

  abbrev large_state : Kernel
  large_state = entry_state s tree va t v way ends

  large_here : (va' : ℕ) → region va ≡ region va' → translate large_state va' ≡ large_target v va'
  large_here va' e =
      let end = directory-IsTree s tree va t v way ends in
      let there : is_present v ≡ true = ground arith in
      let is : is_large 1 v ≡ true = ground arith in
      let w = here-Way s tree va t v way ends va' e in
      Way-walk large_state end va' w
      ∙ walk-suc large_state 1 t va' (end.window t (omega (arith, Way-level large_state end va' w)))
      ∙ rw (at_entry s tree va t v way ends va' e) (rw (there, is) refl)

or_next : (x m : ℕ) → bit_or x (2 * m) ≡ x % 2 + 2 * bit_or (x / 2) m
or_next x m =
    let half : 2 * m / 2 ≡ m = omega arith in
    let low : 2 * m % 2 ≡ 0 = omega arith in bit_or_step x (2 * m) ∙ rw (half, low) (ground arith)

-- `x | PAGE_PRESENT | PAGE_RW | PAGE_PSE`, for the address of a page of 2 MiB.
pub with_large_flags : (x : ℕ) → x % 2 ^ 21 ≡ 0 → bit_or (bit_or (bit_or x 1) 2) 0x80 ≡ x + 131
with_large_flags x h =
    let y = x + 3 in
    let y7 = y / 2 / 2 / 2 / 2 / 2 / 2 / 2 in
    rw (with_flags x (omega arith)) (
      rw
        (
          or_next y 64,
          or_next (y / 2) 32,
          or_next (y / 2 / 2) 16,
          or_next (y / 2 / 2 / 2) 8,
          or_next (y / 2 / 2 / 2 / 2) 4,
          or_next (y / 2 / 2 / 2 / 2 / 2) 2,
          or_next (y / 2 / 2 / 2 / 2 / 2 / 2) 1,
          or_one y7 (omega arith),
        )
        (omega arith))

-- The body of `map_2m`, as the calls that it makes.
map_2m_entry-steps :
    (va pa : ℕ) (s : Kernel) {t3 t2 : ℕ} {s3 s2 : Kernel}
    → get_or_create_table s.pml4 (index_at 3 va) s ≡ some (t3, s3)
    → get_or_create_table t3 (index_at 2 va) s3 ≡ some (t2, s2)
    → map_2m_entry va pa s
      ≡ store_entry t2 (index_at 1 va) (bit_or (bit_or (bit_or pa 1) 2) 0x80) s2
unfolding map_2m_entry
map_2m_entry-steps va pa s e3 e2 =
    rw (index_bits, index_bits, index_bits) (rw (◌>>=◌, e3) (rw (◌>>=◌, e2) refl))

-- Of the addresses of `P`, those outside of the region of `va`.
abbrev pub Outside : (va : ℕ) → (ℕ → Type 0) → ℕ → Type 0
Outside va P va' = P va' × (region va ≢ region va')

-- The result of the body of `map_2m`.
pub record Mapped2m (P : ℕ → Type 0) (va pa : ℕ) (s : Kernel) : Type 0 where
  pub s' : Kernel
  pub returns : map_2m_entry va pa s ≡ some (tt, s')
  pub mapping : IsMapping (Outside va P) s'
  pub sends : SendsRegion va (λ va'. some (pa + va' % 2 ^ 21)) s s'
  pub but : SameBut 2 s s'

pub map_2m_entry-Mapped2m :
    (P : ℕ → Type 0) (va pa : ℕ) (s : Kernel)
    → P va
    → pa % 2 ^ 21 ≡ 0
    → pa < 2 ^ 52
    → IsMapping P s
    → s.heap.heap_offset + 2 * 8192 ≤ s.heap.heap_size
    → Mapped2m P va pa s
map_2m_entry-Mapped2m P va pa s p aligned small m room =
    let d3 = down P va p 2 s.pml4 s (omega arith) m (root refl) (omega arith) in
    let d2 = down P va p 1 d3.u d3.s' (omega arith) d3.mapping d3.way (omega (arith, d3.but)) in
    let end = d2.mapping in
    let v = pa + 131 in
    let on : v % 2 ≡ 1 = omega arith in
    let large : v / 128 % 2 ≡ 1 = omega arith in
    let off : Leads v → ⊥ = ends d2.s' end.tree va d2.u v d2.way on large in
    let frame : v / 2 ^ 21 % 2 ^ 31 * 2 ^ 21 ≡ pa = omega arith in
    record {
      s' = large_state d2.s' end.tree va d2.u v d2.way on large;
      returns =
          map_2m_entry-steps va pa s d3.returns d2.returns
          ∙ rw (with_large_flags pa aligned)
              (store_entry-directory d2.s' end.tree va d2.u v d2.way off);
      mapping = record {
        level = end.level;
        prefix = end.prefix;
        tree = directory-IsTree d2.s' end.tree va d2.u v d2.way off;
        plain = λ va' q.
            directory-IsPlain d2.s' end.tree va d2.u v d2.way off va' q.1 (end.plain va' q.0);
      };
      sends = λ va'.
          directory-SendsRegion d2.s' end.tree va d2.u v d2.way off (large_target v)
            (large_here d2.s' end.tree va d2.u v d2.way on large) va'
          ∙ rw (frame, d2.same_walk va', d3.same_walk va') refl;
      but = record {
        spent = omega (arith, d2.but, d3.but);
        same_heap = omega (arith, d2.but, d3.but);
      };
    }
