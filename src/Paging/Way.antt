-- ===== src/Paging/Way.antt =====
-- The way of an address down the tree of tables.
use aidos.Common.{
  ℕ, zero, suc, ◌-◌, ◌/◌, ◌%◌, ◌^◌, ◌<◌, ◌≡◌, inl, inr, refl, arith, true, false, ◌∙◌, sym,
  Bool-cases, ◌==◌, ==_iff,
}
use aidos.Paging.{Kernel, entry}
use aidos.Paging.Mmu.{index_at, walk, translate, is_present, is_large}
use aidos.Paging.Tree.{IsTree, Leads, child, walk-suc}
use aidos.Paging.Walk.{path, descend}
use aidos.Paging.Grows.{IsPlain, Grows}
use aidos.Paging.Link.{same_slot}

-- Following the entries of `va` from the PML4 leads to the table `t` of level `n`.
pub data Way (s : Kernel) (va : ℕ) : ℕ → ℕ → Type 0 where
  root : {t : ℕ} → t ≡ s.pml4 → Way s va 4 t
  step :
      {n t u : ℕ}
      → n < 3
      → Way s va (suc (suc n)) t
      → Leads (entry s.mem t (index_at (suc n) va))
      → child s (entry s.mem t (index_at (suc n) va)) ≡ u
      → Way s va (suc n) u

module _ (s : Kernel) {level prefix : ℕ → ℕ} (tree : IsTree s level prefix) (va : ℕ) where
  -- The tables on the way are those of the tree with the bits of `va`.
  pub Way-level : {n t : ℕ} → Way s va n t → (level t ≡ n) × (prefix t ≡ path n va)
  Way-level (root e) = rw e (tree.root, omega (arith, tree.root_prefix))
  Way-level (step {n} {t} lt w leads e) =
      let up = Way-level w in
      let down = descend s tree n t va (omega arith) up.0 up.1 leads in rw (← e) (down.0, down.1)

  -- The processor takes that way.
  pub Way-walk : {n t : ℕ} → Way s va n t → translate s va ≡ walk s n (t - s.kernel_offset) va
  Way-walk (root e) = rw e refl
  Way-walk (step {n} {t} lt w leads e) =
      let up = Way-level w in
      let x = entry s.mem t (index_at (suc n) va) in
      let there : is_present x ≡ true = ground (arith, leads) in
      let plain : is_large (suc n) x ≡ false = ground (arith, leads) in
      let onward = (descend s tree n t va (omega arith) up.0 up.1 leads).2 in
      Way-walk w
      ∙ walk-suc s (suc n) t va (tree.window t (omega (arith, up)))
      ∙ rw (there, plain, onward, e) refl

-- Two addresses of one page are resolved by the same indices.
abbrev pub page : ℕ → ℕ
page va = va / 4096 % 2 ^ 36

pub index_at-page : (n va va' : ℕ) → n < 4 → page va ≡ page va' → index_at n va ≡ index_at n va'
index_at-page zero va va' h e = omega arith
index_at-page (suc zero) va va' h e = omega arith
index_at-page (suc (suc zero)) va va' h e = omega arith
index_at-page (suc (suc (suc zero))) va va' h e = omega arith
index_at-page (suc (suc (suc (suc n)))) va va' h e = absurd (omega arith)

pub Way-page : (s : Kernel) {va va' n t : ℕ} → page va ≡ page va' → Way s va n t → Way s va' n t
Way-page s h (root e) = root e
Way-page s {va} {va'} h (step {n} lt w leads e) =
    let same = index_at-page (suc n) va va' (omega arith) h in
    step lt (Way-page s h w) (rw (← same) leads) (rw (← same) e)

-- What `get_or_create_table` does keeps every way that was there, and every plain address plain.
module _ (s : Kernel) {level prefix : ℕ → ℕ} (tree : IsTree s level prefix) (parent index t : ℕ)
    (s' : Kernel) {level' prefix' : ℕ → ℕ}
    (grows : Grows s level prefix parent index t s' level' prefix') (va : ℕ) where
  pub Way-Grows : {n u : ℕ} → Way s va n u → Way s' va n u
  Way-Grows (root e) = root (e ∙ sym grows.same_pml4)
  Way-Grows (step {n} {t = v} lt w leads e) =
      let up = Way-level s tree va w in
      let same = grows.stays v (index_at (suc n) va) (omega (arith, up)) (omega arith) leads in
      step lt (Way-Grows w) (rw same leads) (rw (same, grows.same_offset) e)

  pub IsPlain-Grows : IsPlain s level prefix va → IsPlain s' level' prefix' va
  IsPlain-Grows plain n v lv pre there = elim (Bool-cases (level v == 0)) [
    | inl new ↦
        let empty =
          grows.fresh v (index_at (suc n) va) (omega arith) ((==_iff (level v) 0).0 new)
            (omega arith) in
        absurd (omega (arith, empty))
    | inr old ↦
        let tabled : 0 < level v = ground arith in
        let kept = grows.keep_level v tabled in
        elim (same_slot v (index_at (suc n) va) parent index) [
          | inl (e, e') ↦ rw (e, e') grows.leads.1
          | inr ne ↦
              let same = grows.others v (index_at (suc n) va) tabled (omega arith) ne in
              rw same (
                plain n v (sym kept ∙ lv) (sym (grows.keep_prefix v tabled) ∙ pre)
                  (rw same at there))
        ]
  ]

  -- The way goes on to the table that is returned.
  pub Way-step :
      {n : ℕ}
      → n < 3
      → Way s va (suc (suc n)) parent
      → index ≡ index_at (suc n) va
      → Way s' va (suc n) t
  Way-step lt w e = step lt (Way-Grows w) (rw (← e) grows.leads) (rw (← e) grows.leads_to)
