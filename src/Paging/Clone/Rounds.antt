-- ===== src/Paging/Clone/Rounds.antt =====
-- What the loops of `setup_paging` add to memory, and that later rounds leave the copies alone.
use aidos.Common.{
  ℕ, suc, ◌+◌, ◌*◌, ◌-◌, ◌/◌, ◌%◌, ◌^◌, ◌≤◌, ◌<◌, ◌≡◌, ◌∙◌, ◌⊎◌, inl, inr, arith, Bool-cases, sym,
  ◌==◌,
}
use aidos.Mem.{Memory}
use aidos.Paging.{Kernel, entry}
use aidos.Paging.Tree.{Leads}
use aidos.Paging.Lookup.{identity, addr}
use aidos.Paging.Clone.Copy.{frontier, through, from_entry, from_entry-link}
use aidos.Paging.Clone.Takeover.{Takeover, Stands, Settled, IsOwn, Grown, Entered}
use aidos.Paging.Clone.Entry.{InHeap, Own-apart}
use aidos.Paging.Clone.Forest.{Agree}
use aidos.Paging.Clone.Walks.{Stands-frontier, Copies, Entries, from_entry-table}

module _ (g : Takeover) where
  -- A part of a loop, then the rest.
  pub Grown-then :
      (t i left k k' : ℕ) (s s1 s' : Kernel)
      → Grown g t i 1 k' s s1
      → Grown g t (i + 1) left k s1 s'
      → Grown g t i (suc left) k s s'
  Grown-then t i left k k' s s1 s' first rest = record {
    stands = rest.stands;
    grown = omega (arith, first.grown, rest.grown);
    room = rest.room;
    kept = λ c settled off.
        rest.kept c (omega (arith, first.grown)) (omega arith) ∙ first.kept c settled (omega arith);
  }

  -- A copy, then the loop inside.
  pub Grown-below :
      (t i k k' e p : ℕ) (s s1 s2 : Kernel)
      → Entered g t i k' e s p s1
      → Grown g p 0 512 k s1 s2
      → Grown g t i 1 k s s2
  Grown-below t i k k' e p s s1 s2 first inner = record {
    stands = inner.stands;
    grown = omega (arith, first.grown.grown, inner.grown);
    room = inner.room;
    kept = λ c settled off.
        let top = Stands-frontier g s1 first.grown.stands in
        inner.kept c (omega (arith, first.grown.grown))
          (omega (arith, first.fresh, first.last, top))
        ∙ first.grown.kept c settled off;
  }

  pub Settled-cases :
      (top t c : ℕ)
      → IsOwn g top t
      → t / 8 ≤ c
      → c < t / 8 + 512
      → top ≤ g.hi
      → Settled g top c ⊎ (c * 8 + 8 ≤ g.lo)
  Settled-cases top t c (inl own) from to le = inl (inl (omega arith))
  Settled-cases top t c (inr own) from to le = omega (arith, own, g.pml4_apart, g.pml4_aligned)

  pub Own-Settled :
      (s : Kernel) (t j : ℕ)
      → Stands g s
      → IsOwn g (frontier s) t
      → j < 512
      → Settled g (frontier s) (t / 8 + j)
  Own-Settled s t j st own lt =
      elim (Settled-cases (frontier s) t (t / 8 + j) own (omega arith) (omega arith)
        (Stands-frontier g s st)) [
          | inl settled ↦ settled
          | inr below ↦ inl (omega (arith, st.base_ok))
        ]

  pub Own-later : (top top' t : ℕ) → top ≤ top' → IsOwn g top t → IsOwn g top' t
  Own-later top top' t le (inl own) = inl (omega arith)
  Own-later top top' t le (inr own) = inr own

  -- A cell of the heap above `top` is none of a table given out before.
  pub Own-above :
      (top t c : ℕ)
      → IsOwn g top t
      → g.lo ≤ top
      → top ≤ c * 8
      → c * 8 + 8 ≤ g.hi
      → (c < t / 8) ⊎ (t / 8 + 512 ≤ c)
  Own-above top t c (inl own) lo from to = omega arith
  Own-above top t c (inr own) lo from to = omega (arith, own, g.pml4_apart, g.pml4_aligned)

  pub Entries-then :
      (n t pa i left a a' b : ℕ) (m : Memory)
      → a ≤ a'
      → ((m' : Memory)
          → Agree a b m m'
          → entry m' t i ≡ entry m t i
          → (va : ℕ)
          → from_entry (through g.offset m') n (entry m' t i) va
            ≡ from_entry (identity g.old) n (entry g.old pa i) va)
      → Entries g n t pa (i + 1) left a' b m
      → Entries g n t pa i (suc left) a b m
  Entries-then n t pa i left a a' b m le first rest j from to m' same here va =
      elim (Bool-cases (i == j)) [
        | inl hit ↦ let e : i ≡ j = ground arith in rw e at (first m' same (rw e here) va)
        | inr miss ↦
            let later : i + 1 ≤ j = ground arith in
            rest j later (omega arith) m' (λ c from to. same c (omega arith) to) here va
      ]

  -- What the later rounds leave of the copy at `p` and of its link, in entry `i` of `t`.
  pub record Remains (t i left p e : ℕ) (s s2 s3 : Kernel) : Type 0 where
    pub copy : Agree p (frontier s2) s2.mem s3.mem
    pub link : entry s3.mem t i ≡ p - g.offset + e % 4096
    pub page : (p % 4096 ≡ 0) × (g.lo ≤ p) × (p + 4096 ≤ g.hi)

  pub Remains-of_rest :
      (t i k k1 k2 left p e : ℕ) (s s1 s2 s3 : Kernel)
      → Stands g s
      → IsOwn g (frontier s) t
      → i + suc left ≤ 512
      → Entered g t i k e s p s1
      → Grown g p 0 512 k1 s1 s2
      → Grown g t (i + 1) left k2 s2 s3
      → Remains t i left p e s s2 s3
  Remains-of_rest t i k k1 k2 left p e s s1 s2 s3 st own le first inner rest =
      let top0 = Stands-frontier g s st in
      let top2 = Stands-frontier g s2 inner.stands in
      let f1 = first.grown.grown in
      let low : g.lo ≤ frontier s = omega (arith, st.base_ok) in
      let settled = Own-Settled s t i st own (omega arith) in
      let page : InHeap g s p = (
        first.aligned,
        first.fresh,
        omega (arith, first.fresh),
        omega (arith, first.last, inner.grown),
      ) in
      let apart : (t / 8 + i < p / 8 + 0) ⊎ (p / 8 + 0 + 512 ≤ t / 8 + i) =
        let off = Own-apart g s t p (t / 8 + i) page own (omega arith) (omega arith) in
        omega (arith, off) in
      record {
        copy = λ c from to.
            let off =
              Own-above (frontier s) t c own low (omega (arith, first.fresh))
                (omega (arith, top2)) in
            rest.kept c (inl to) (omega (arith, off));
        link =
            rest.kept (t / 8 + i) (omega (arith, settled, f1, inner.grown)) (omega arith)
            ∙ inner.kept (t / 8 + i) (omega (arith, settled, f1)) apart
            ∙ first.link;
        page = (page.0, page.2, page.3);
      }

  -- The first entry of a part of the loop, where it leads on.
  pub from_entry-cloned :
      (n t pa i left p : ℕ) (s s2 s3 : Kernel)
      → frontier s ≤ p
      → frontier s2 ≤ frontier s3
      → Leads (entry g.old pa i)
      → entry g.old pa i < 2 ^ 48
      → Remains t i left p (entry g.old pa i) s s2 s3
      → Copies g (suc n) p (addr (entry g.old pa i)) p (frontier s2) s2.mem
      → (m' : Memory) → Agree (frontier s) (frontier s3) s3.mem m'
      → entry m' t i ≡ entry s3.mem t i
      → (va : ℕ)
      → from_entry (through g.offset m') (suc n) (entry m' t i) va
        ≡ from_entry (identity g.old) (suc n) (entry g.old pa i) va
  from_entry-cloned n t pa i left p s s2 s3 fresh grown leads small remains copies m' same here va =
      let e = entry g.old pa i in
      let page = remains.page in
      let agrees : Agree p (frontier s2) s2.mem m' =
        λ c from to. same c (omega arith) (omega arith) ∙ remains.copy c from to in
      rw (here ∙ remains.link) (
        from_entry-link (through g.offset m') (suc n) (p - g.offset) (e % 4096) va
          (omega (arith, page, g.offset_aligned)) (omega (arith, page, g.below)) (omega arith)
          (omega (arith, leads)) (omega (arith, leads))
        ∙ copies m' agrees va
        ∙ sym (from_entry-table (identity g.old) (suc n) e va leads small))
