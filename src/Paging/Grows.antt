-- ===== src/Paging/Grows.antt =====
-- Ways without large pages, and what a new table changes.
use aidos.Common.{ℕ, suc, ◌+◌, ◌*◌, ◌/◌, ◌%◌, ◌≤◌, ◌<◌, ◌≡◌, ◌≢◌, ◌⊎◌}
use aidos.Paging.{Kernel, entry}
use aidos.Paging.Mmu.{index_at, translate}
use aidos.Paging.Tree.{IsTree, Leads, child}
use aidos.Paging.Walk.{path}

-- The entry of `va` in the table `t`, if that is on its way, is not that of a large page.
abbrev pub IsPlainAt : Kernel → (level prefix : ℕ → ℕ) → (va n t : ℕ) → Type 0
IsPlainAt s level prefix va n t =
    level t ≡ suc (suc n)
    → prefix t ≡ path (suc (suc n)) va
    → entry s.mem t (index_at (suc n) va) % 2 ≡ 1
    → entry s.mem t (index_at (suc n) va) / 128 % 2 ≡ 0

-- No entry on the way of `va` is that of a large page.
abbrev pub IsPlain : Kernel → (level prefix : ℕ → ℕ) → ℕ → Type 0
IsPlain s level prefix va = (n t : ℕ) → IsPlainAt s level prefix va n t

-- The state `s'` that `get_or_create_table parent index` leaves, with the table `t` that it returns:
-- the tables form a tree still, the entry leads to `t`, every other entry of a table is the same, new
-- tables are empty, every address translates as before, and the heap gave at most one page.
pub record Grows (s : Kernel) (level prefix : ℕ → ℕ) (parent index t : ℕ) (s' : Kernel)
    (level' prefix' : ℕ → ℕ) : Type 0 where
  pub tree : IsTree s' level' prefix'
  pub level_ok : suc (level' t) ≡ level parent
  pub prefix_ok : prefix' t ≡ prefix parent * 512 + index
  pub leads : Leads (entry s'.mem parent index)
  pub leads_to : child s' (entry s'.mem parent index) ≡ t
  pub keep_level : (u : ℕ) → 0 < level u → level' u ≡ level u
  pub keep_prefix : (u : ℕ) → 0 < level u → prefix' u ≡ prefix u
  pub others :
      (u i : ℕ)
      → 0 < level u
      → i < 512
      → (u ≢ parent) ⊎ (i ≢ index)
      → entry s'.mem u i ≡ entry s.mem u i
  pub stays :
      (u i : ℕ)
      → 0 < level u
      → i < 512
      → Leads (entry s.mem u i)
      → entry s'.mem u i ≡ entry s.mem u i
  pub fresh : (u i : ℕ) → 0 < level' u → level u ≡ 0 → i < 512 → entry s'.mem u i ≡ 0
  pub same_walk : (va : ℕ) → translate s' va ≡ translate s va
  pub spent : s'.heap.heap_offset ≤ s.heap.heap_offset + 8191
  pub same_heap : s'.heap.heap_size ≡ s.heap.heap_size
  pub same_pml4 : s'.pml4 ≡ s.pml4
  pub same_offset : s'.kernel_offset ≡ s.kernel_offset
