-- ===== src/Boot/Same.antt =====
-- Where the kernel's functions succeed, the bootloader's do the same.
use aidos.Common.{
  ℕ, ◌+◌, ◌≡◌, ◌∙◌, inl, inr, refl, sym, ap, arith, Option, none, some, [], true, false, ◌==◌,
  Bool-cases, bit_and, bit_or, u64, sub64,
}
use aidos.Heap.{Heap, null, kmalloc}
use aidos.Paging.{Kernel, M, ◌>>=◌, entry}
use aidos.Paging
use aidos.Paging.Entry.{page_bits}
use aidos.Boot.{Boot, store_entry, clear_table, get_or_create_table, map_4k_entry, map_2m_entry}

-- The bootloader's state as one of the kernel's, with memory mapped to itself.
abbrev pub as_kernel : Boot → Kernel
as_kernel s = record {
  mem = s.mem;
  heap = s.heap;
  pml4 = s.pml4;
  kernel_offset = 0;
  cr3 = s.cr3;
  flushed = [];
}

abbrev returned : ℕ × Boot → Option (ℕ × Kernel)
returned r = some (r.0, as_kernel r.1)

-- A chain of two steps that succeeds, taken apart.
pub record Ran {A B : Type 0} (m : M A) (f : A → M B) (k : Kernel) (r : Option (B × Kernel))
    : Type 0 where
  pub a : A
  pub k' : Kernel
  pub first : m k ≡ some (a, k')
  pub rest : f a k' ≡ r

Ran-cases :
    {A B : Type 0} (m : M A) (f : A → M B) (k : Kernel) {b : B} {k'' : Kernel}
    (first : Option (A × Kernel))
    → m k ≡ first
    → (m >>= f) k ≡ some (b, k'')
    → Ran m f k (some (b, k''))
Ran-cases m f k none e ok = absurd (cc (rw (◌>>=◌, e) at ok))
Ran-cases m f k (some (a, k')) e ok = record {
  a = a;
  k' = k';
  first = e;
  rest = rw (◌>>=◌, e) at ok;
}

pub ran :
    {A B : Type 0} (m : M A) (f : A → M B) (k : Kernel) {b : B} {k'' : Kernel}
    → (m >>= f) k ≡ some (b, k'')
    → Ran m f k (some (b, k''))
ran m f k ok = Ran-cases m f k (m k) refl ok

-- A table that is read or written is not null.
create-ne-null :
    (t i : ℕ) (k : Kernel) {r : ℕ × Kernel}
    → Paging.get_or_create_table t i k ≡ some r
    → (t == null) ≡ false
unfolding Paging.get_or_create_table
create-ne-null t i k ok = elim (Bool-cases (t == null)) [
  | inl e ↦ absurd (cc (rw e at ok))
  | inr ne ↦ ne
]

store-ne-null :
    (t i v : ℕ) (k : Kernel) {r : Unit {0} × Kernel}
    → Paging.store_entry t i v k ≡ some r
    → (t == null) ≡ false
unfolding Paging.store_entry
store-ne-null t i v k ok = elim (Bool-cases (t == null)) [
  | inl e ↦ absurd (cc (rw e at ok))
  | inr ne ↦ ne
]

store-same :
    (t i v : ℕ) (s : Boot)
    → (t == null) ≡ false
    → Paging.store_entry t i v (as_kernel s) ≡ some (tt, as_kernel (store_entry t i v s))
unfolding Paging.store_entry store_entry
store-same t i v s ne = rw ne refl

whole : (e : ℕ) → u64 (bit_and e 0xFFFF_FFFF_FFFF_F000 + 0) ≡ bit_and e 0xFFFF_FFFF_FFFF_F000
whole e = rw page_bits (omega arith)

-- A pointer from `kmalloc` is a word.
kmalloc-word : (h : Heap) → sub64 (kmalloc 4096 4096 h).0 0 ≡ (kmalloc 4096 4096 h).0
unfolding kmalloc
kmalloc-word h = rw page_bits (ground arith)

module _ (t i : ℕ) (s : Boot) (ne : (t == null) ≡ false) where
  create-there :
      (bit_and (entry s.mem t i) 1 == 0) ≡ false
      → returned (get_or_create_table t i s) ≡ Paging.get_or_create_table t i (as_kernel s)
  unfolding Paging.get_or_create_table get_or_create_table
  create-there there = rw (ne, there, whole) refl

  create-null :
      (bit_and (entry s.mem t i) 1 == 0) ≡ true
      → ((kmalloc 4096 4096 s.heap).0 == null) ≡ true
      → Paging.get_or_create_table t i (as_kernel s)
        ≡ some (null, record (as_kernel s) { heap = (kmalloc 4096 4096 s.heap).1 })
  unfolding Paging.get_or_create_table
  create-null absent full = rw (ne, absent, full) refl

  create-fresh :
      (bit_and (entry s.mem t i) 1 == 0) ≡ true
      → ((kmalloc 4096 4096 s.heap).0 == null) ≡ false
      → returned (get_or_create_table t i s) ≡ Paging.get_or_create_table t i (as_kernel s)
  unfolding Paging.get_or_create_table get_or_create_table store_entry clear_table
  create-fresh absent given = rw (ne, absent, given, kmalloc-word) refl

create-same :
    (t i : ℕ) (s : Boot) {u : ℕ} {k' : Kernel}
    → (u == null) ≡ false
    → Paging.get_or_create_table t i (as_kernel s) ≡ some (u, k')
    → returned (get_or_create_table t i s) ≡ some (u, k')
create-same t i s {u} {k'} ne ok =
    let at_t = create-ne-null t i (as_kernel s) ok in
    elim (Bool-cases (bit_and (entry s.mem t i) 1 == 0)) [
      | inr there ↦ create-there t i s at_t there ∙ ok
      | inl absent ↦ elim (Bool-cases ((kmalloc 4096 4096 s.heap).0 == null)) [
        | inr given ↦ create-fresh t i s at_t absent given ∙ ok
        | inl full ↦ absurd (cc (create-null t i s at_t absent full, ok, ne))
      ]
    ]

-- One table down, before the rest `f` of a function that succeeds with every table that is not null.
module _ (t i : ℕ) (f : ℕ → M (Unit {0})) {k'' : Kernel}
    (uses : (u : ℕ) (k : Kernel) → f u k ≡ some (tt, k'') → (u == null) ≡ false) where
  first-ne-null :
      (k : Kernel) → (Paging.get_or_create_table t i >>= f) k ≡ some (tt, k'') → (t == null) ≡ false
  first-ne-null k ok =
      create-ne-null t i k (Ran.first (ran (Paging.get_or_create_table t i) f k ok))

  descend :
      (s : Boot)
      → (Paging.get_or_create_table t i >>= f) (as_kernel s) ≡ some (tt, k'')
      → f (get_or_create_table t i s).0 (as_kernel (get_or_create_table t i s).1) ≡ some (tt, k'')
  descend s ok =
      let q = ran (Paging.get_or_create_table t i) f (as_kernel s) ok in
      let same = create-same t i s (uses q.a q.k' q.rest) q.first in
      ap (λ (r : Option (ℕ × Kernel)). elim r [ none ↦ none | some (a, k) ↦ f a k ]) same ∙ q.rest

abbrev pub stored : Boot → Option (Unit {0} × Kernel)
stored s = some (tt, as_kernel s)

store-end :
    (t i v : ℕ) (s : Boot) {k'' : Kernel}
    → Paging.store_entry t i v (as_kernel s) ≡ some (tt, k'')
    → stored (store_entry t i v s) ≡ some (tt, k'')
store-end t i v s ok = sym (store-same t i v s (store-ne-null t i v (as_kernel s) ok)) ∙ ok

two_steps-ne-null :
    (i j v u : ℕ) (k : Kernel) {k'' : Kernel}
    → (Paging.get_or_create_table u i >>= λ w. Paging.store_entry w j v) k ≡ some (tt, k'')
    → (u == null) ≡ false
two_steps-ne-null i j v u k ok =
    first-ne-null u i (λ w. Paging.store_entry w j v) (λ w k. store-ne-null w j v k) k ok

pub map_2m_entry-same :
    (va pa : ℕ) (s : Boot) {k'' : Kernel}
    → Paging.map_2m_entry va pa (as_kernel s) ≡ some (tt, k'')
    → stored (map_2m_entry va pa s) ≡ some (tt, k'')
unfolding Paging.map_2m_entry map_2m_entry
map_2m_entry-same va pa s ok =
    let v = bit_or (bit_or (bit_or pa 1) 2) 0x80 in
    let j = Paging.pd_i va in
    let ok2 =
      descend s.pml4 (Paging.pml4_i va)
        (λ t. Paging.get_or_create_table t (Paging.pdpt_i va) >>= λ u. Paging.store_entry u j v)
        (λ u k. two_steps-ne-null (Paging.pdpt_i va) j v u k) s ok in
    let r3 = get_or_create_table s.pml4 (Paging.pml4_i va) s in
    let ok1 =
      descend r3.0 (Paging.pdpt_i va) (λ u. Paging.store_entry u j v) (λ w k. store-ne-null w j v k)
        r3.1 ok2 in
    let r2 = get_or_create_table r3.0 (Paging.pdpt_i va) r3.1 in store-end r2.0 j v r2.1 ok1

pub map_4k_entry-same :
    (va pa : ℕ) (s : Boot) {k'' : Kernel}
    → Paging.map_4k_entry va pa (as_kernel s) ≡ some (tt, k'')
    → stored (map_4k_entry va pa s) ≡ some (tt, k'')
unfolding Paging.map_4k_entry map_4k_entry
map_4k_entry-same va pa s ok =
    let v = bit_or (bit_or pa 1) 2 in
    let j = Paging.pt_i va in
    let two : ℕ → M (Unit {0}) =
      λ t. Paging.get_or_create_table t (Paging.pd_i va) >>= λ u. Paging.store_entry u j v in
    let ok3 =
      descend s.pml4 (Paging.pml4_i va)
        (λ t. Paging.get_or_create_table t (Paging.pdpt_i va) >>= two)
        (λ u k.
          first-ne-null u (Paging.pdpt_i va) two (λ w k. two_steps-ne-null (Paging.pd_i va) j v w k)
            k)
        s ok in
    let r3 = get_or_create_table s.pml4 (Paging.pml4_i va) s in
    let ok2 =
      descend r3.0 (Paging.pdpt_i va) two (λ w k. two_steps-ne-null (Paging.pd_i va) j v w k) r3.1
        ok3 in
    let r2 = get_or_create_table r3.0 (Paging.pdpt_i va) r3.1 in
    let ok1 =
      descend r2.0 (Paging.pd_i va) (λ u. Paging.store_entry u j v) (λ w k. store-ne-null w j v k)
        r2.1 ok2 in
    let r1 = get_or_create_table r2.0 (Paging.pd_i va) r2.1 in store-end r1.0 j v r1.1 ok1
