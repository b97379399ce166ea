-- ===== src/Paging/Unmap.antt =====
-- The contract of `unmap_4k`.
pub mod Rounds
pub mod Step
pub mod Regions
use aidos.Common.{
  ℕ, zero, suc, ◌+◌, ◌-◌, ◌%◌, ◌^◌, ◌≤◌, ◌<◌, ◌≡◌, ◌⊎◌, inl, inr, refl, arith, Option, none, some,
  false, ◌∙◌, ap, ◌==◌, bit_and, u64, ◌∷◌, ◌++◌, List, replicate,
}
use aidos.Heap.{null}
use aidos.Paging.{
  Kernel, entry, store_entry, get_table_if_exists, flush_tlb_single, unmap_4k_entry, unmap_4k_loop,
  unmap_4k, page_address, ◌>>=◌, ◌>>◌,
}
use aidos.Paging.Entry.{index_bits, present_bit, page_bits}
use aidos.Paging.Mmu.{index_at, walk, translate}
use aidos.Paging.Tree.{InWindow-same, IsTree, Leads, child, walk-suc}
use aidos.Paging.Grows.{IsPlain}
use aidos.Paging.Create.{parity}
use aidos.Paging.Way.{Way, root, step, Way-level, Way-walk, Way-page, page, index_at-page}
use aidos.Paging.Range.{Sends, IsRange, IsRange-zero, IsRange-suc}
use aidos.Paging.Map.{IsMapping}
use aidos.Paging.Leaf
use aidos.Paging.Unmap.Rounds.{replicate-append_suc}
use aidos.Paging.Unmap.Step.{Next, missing, found, next, nowhere_page, walk-flushed, IsTree-flushed}

-- What one round does: the page translates to nothing, all else as before; the heap is untouched;
-- at most one address is flushed, and it is the start of the range.
pub record Unmapped (P : ℕ → Type 0) (virt va : ℕ) (s : Kernel)
    (result : Option (Unit {0} × Kernel)) : Type 0 where
  pub s' : Kernel
  pub returns : result ≡ some (tt, s')
  pub mapping : IsMapping P s'
  pub sends : Sends va (λ _. none) s s'
  pub same_heap : s'.heap ≡ s.heap
  pub flushes : (s'.flushed ≡ s.flushed) ⊎ (s'.flushed ≡ virt ∷ s.flushed)

module _ (P : ℕ → Type 0) (virt va : ℕ) (p : P va) (s : Kernel) (m : IsMapping P s) where
  skip-Unmapped :
      {result : Option (Unit {0} × Kernel)}
      → result ≡ some (tt, s)
      → ((va' : ℕ) → page va ≡ page va' → translate s va' ≡ none)
      → Unmapped P virt va s result
  skip-Unmapped e nowhere = record {
    s' = s;
    returns = e;
    mapping = m;
    sends = λ va'. ground (arith, nowhere va');
    same_heap = refl;
    flushes = inl refl;
  }

  clear-Unmapped :
      {result : Option (Unit {0} × Kernel)} (t : ℕ) (w : Way s va 1 t)
      → result ≡ (store_entry t (index_at 0 va) 0 >> flush_tlb_single virt) s
      → Unmapped P virt va s result
  unfolding flush_tlb_single
  clear-Unmapped t w e = record {
    s' = record s { mem = (Leaf.leaf_state s m.tree va t 0 w).mem; flushed = virt ∷ s.flushed };
    returns = e ∙ rw (◌>>=◌, Leaf.store_entry-leaf s m.tree va t 0 w) refl;
    mapping = record {
      level = m.level;
      prefix = m.prefix;
      tree =
          IsTree-flushed (Leaf.leaf_state s m.tree va t 0 w) (virt ∷ s.flushed)
            (Leaf.leaf-IsTree s m.tree va t 0 w);
      plain = λ va' p'. Leaf.leaf-IsPlain s m.tree va t 0 w va' (m.plain va' p');
    };
    sends = λ va'.
        walk-flushed (Leaf.leaf_state s m.tree va t 0 w) (virt ∷ s.flushed) 4
          (s.pml4 - s.kernel_offset) va'
        ∙ Leaf.leaf-translate s m.tree va t 0 w va';
    same_heap = refl;
    flushes = inr refl;
  }

  -- One round unmaps the page.
  unmap_4k_entry-Unmapped : Unmapped P virt va s (unmap_4k_entry virt va s)
  unfolding unmap_4k_entry
  unmap_4k_entry-Unmapped =
      elim (next s m.tree va 2 s.pml4 (omega arith) (m.plain va p 2 s.pml4) (root refl)) [
        | missing e3 absent3 ↦
            skip-Unmapped
              (rw (index_bits, index_bits, index_bits, index_bits) (rw (◌>>=◌, e3) refl))
              (nowhere_page s m.tree va 2 s.pml4 (omega arith) (root refl) absent3)
        | found t3 e3 ne3 w3 ↦ elim (next s m.tree va 1 t3 (omega arith) (m.plain va p 1 t3) w3) [
          | missing e2 absent2 ↦
              skip-Unmapped
                (rw (index_bits, index_bits, index_bits, index_bits)
                  (rw (◌>>=◌, e3) (rw ne3 (rw (◌>>=◌, e2) refl))))
                (nowhere_page s m.tree va 1 t3 (omega arith) w3 absent2)
          | found t2 e2 ne2 w2 ↦ elim (next s m.tree va 0 t2 (omega arith) (m.plain va p 0 t2) w2) [
            | missing e1 absent1 ↦
                skip-Unmapped
                  (rw (index_bits, index_bits, index_bits, index_bits)
                    (rw (◌>>=◌, e3) (rw ne3 (rw (◌>>=◌, e2) (rw ne2 (rw (◌>>=◌, e1) refl))))))
                  (nowhere_page s m.tree va 0 t2 (omega arith) w2 absent1)
            | found t1 e1 ne1 w1 ↦ clear-Unmapped t1 w1 (
                rw (index_bits, index_bits, index_bits, index_bits)
                  (rw (◌>>=◌, e3)
                    (rw ne3 (rw (◌>>=◌, e2) (rw ne2 (rw (◌>>=◌, e1) (rw ne1 refl)))))))
          ]
        ]
      ]

unmap_4k_loop-suc :
    (virt left i : ℕ) (s : Kernel) {s1 : Kernel}
    → unmap_4k_entry virt (page_address virt i) s ≡ some (tt, s1)
    → unmap_4k_loop virt (suc left) i s ≡ unmap_4k_loop virt left (i + 1) s1
unfolding unmap_4k_loop
unmap_4k_loop-suc virt left i s e = rw (◌>>=◌, e) refl

-- The call returns, with the range unmapped, the tables a tree as before and the heap untouched. What
-- it flushed is the first page of the range, over and over.
pub record UnmapsRange (P : ℕ → Type 0) (virt left i : ℕ) (s : Kernel)
    (result : Option (Unit {0} × Kernel)) : Type 0 where
  pub s' : Kernel
  pub returns : result ≡ some (tt, s')
  pub mapping : IsMapping P s'
  pub range : IsRange virt (λ _ _. none) left i s s'
  pub same_heap : s'.heap ≡ s.heap
  pub rounds : ℕ
  pub rounds_bound : rounds ≤ left
  pub flushes : s'.flushed ≡ replicate rounds virt ++ s.flushed

-- Counting one more round, if it flushed.
more_rounds :
    (virt k left : ℕ) (old mid new : List ℕ)
    → (mid ≡ old) ⊎ (mid ≡ virt ∷ old)
    → new ≡ replicate k virt ++ mid
    → k ≤ left
    → (r : ℕ) × (r ≤ suc left) × (new ≡ replicate r virt ++ old)
more_rounds virt k left old mid new (inl e) e' le = (k, omega arith, rw e at e')
more_rounds virt k left old mid new (inr e) e' le =
    (suc k, omega arith, e' ∙ rw e (replicate-append_suc k virt old))

module _ (P : ℕ → Type 0) (virt count : ℕ) (once : count ≤ 2 ^ 36)
    (plain : (i : ℕ) → i < count → P (page_address virt i)) where
  unmap_4k_loop-UnmapsRange :
      (left i : ℕ) (s : Kernel)
      → i + left ≤ count
      → IsMapping P s
      → UnmapsRange P virt left i s (unmap_4k_loop virt left i s)
  unmap_4k_loop-UnmapsRange zero i s h m = record {
    s' = s;
    returns = unfold unmap_4k_loop in refl;
    mapping = m;
    range = IsRange-zero virt (λ _ _. none) i s;
    same_heap = refl;
    rounds = 0;
    rounds_bound = omega arith;
    flushes = refl;
  }
  unmap_4k_loop-UnmapsRange (suc left) i s h m =
      let first =
        unmap_4k_entry-Unmapped P virt (page_address virt i) (plain i (omega arith)) s m in
      let rest = unmap_4k_loop-UnmapsRange left (i + 1) first.s' (omega arith) first.mapping in
      let counted =
        more_rounds virt rest.rounds left s.flushed first.s'.flushed rest.s'.flushed first.flushes
          rest.flushes rest.rounds_bound in
      record {
        s' = rest.s';
        returns = unmap_4k_loop-suc virt left i s first.returns ∙ rest.returns;
        mapping = rest.mapping;
        range =
            IsRange-suc virt (λ _ _. none) left i s first.s' rest.s' (omega arith) first.sends
              rest.range;
        same_heap = rest.same_heap ∙ first.same_heap;
        rounds = counted.0;
        rounds_bound = counted.1;
        flushes = counted.2;
      }

  -- In a tree of tables with no large page on the way of the at most 2 ^ 36 pages, `unmap_4k` returns:
  -- the processor's tables then translate no address of the range and every other address as before,
  -- the tables are a tree, the heap is untouched, and each address given to `invlpg` is the start of
  -- the range, whichever page was unmapped.
  pub unmap_4k-UnmapsRange :
      (s : Kernel) → IsMapping P s → UnmapsRange P virt count 0 s (unmap_4k virt count s)
  unfolding unmap_4k
  unmap_4k-UnmapsRange s m = unmap_4k_loop-UnmapsRange count 0 s (omega arith) m
