-- ===== src/Paging/Clone/Loop.antt =====
-- The three nested loops of `setup_paging`: the tables that they leave stand for the old ones.
use aidos.Common.{
  ℕ, zero, suc, ◌+◌, ◌*◌, ◌/◌, ◌%◌, ◌≤◌, ◌<◌, ◌≡◌, ◌∙◌, inl, inr, refl, arith, true, false,
  Bool-cases,
}
use aidos.Paging.{Kernel, entry}
use aidos.Paging.Lookup.{identity, addr}
use aidos.Paging.Clone.{clone_entry, clone_loop, clone_pt, clone_pd, clone_pdpt, leads_on}
use aidos.Paging.Clone.Copy.{
  tables, tables-none, tables-leads, tables-ends, frontier, Room, through,
}
use aidos.Paging.Clone.Takeover.{Takeover, Stands, IsOwn, Grown, Entered}
use aidos.Paging.Clone.Entry.{clone_entry-Entered}
use aidos.Paging.Clone.Forest.{IsUpper, IsUpper-below, Subtree, Subtree-same, Shoots}
use aidos.Paging.Clone.Forest.Join.{Shoots-then, Shoots-skip, Shoots-none}
use aidos.Paging.Clone.Forest.Root.{Shoots-Subtree}
use aidos.Paging.Clone.Walks.{
  Stands-frontier, Copies, Entries, Below, Copies-of_entries, clone_pt-Below, Leads-of_leads_on,
  from_entry-end, ends,
}
use aidos.Paging.Clone.Rounds.{
  Grown-then, Grown-below, Own-Settled, Own-later, Entries-then, Remains-of_rest, from_entry-cloned,
}

module _ (g : Takeover) where
  -- A loop over the entries of a table of level n + 2.
  abbrev pub Looped : (n left i t pa k : ℕ) (s s' : Kernel) → Type 0
  Looped n left i t pa k s s' =
      Grown g t i left k s s'
      × Entries g (suc n) t pa i left (frontier s) (frontier s') s'.mem
      × ((pre : ℕ)
          → ((j : ℕ) → i ≤ j → IsUpper (suc n) (pre * 512 + j))
          → Shoots g.offset (suc n) t pre i left (frontier s) (frontier s') s'.mem)

  -- What a loop begins with.
  pub record Begins (n left i t pa k : ℕ) (s : Kernel) : Type 0 where
    pub stands : Stands g s
    pub own : IsOwn g (frontier s) t
    pub of_level : g.level pa ≡ suc (suc n)
    pub within : i + left ≤ 512
    pub same : (j : ℕ) → i ≤ j → j < i + left → entry s.mem t j ≡ entry g.old pa j
    pub room : Room (tables g.old (suc n) left i pa + k) s

  Begins-next :
      (n left i t pa k k' : ℕ) (s s2 : Kernel)
      → Begins n (suc left) i t pa k' s
      → Grown g t i 1 (tables g.old (suc n) left (i + 1) pa + k) s s2
      → Begins n left (i + 1) t pa k s2
  Begins-next n left i t pa k k' s s2 b grown = record {
    stands = grown.stands;
    own = Own-later g (frontier s) (frontier s2) t grown.grown b.own;
    of_level = b.of_level;
    within = omega (arith, b.within);
    same = λ j from to.
        grown.kept (t / 8 + j) (Own-Settled g s t j b.stands b.own (omega (arith, b.within)))
          (omega arith)
        ∙ b.same j (omega arith) (omega arith);
    room = grown.room;
  }

  -- An entry that does not lead on is passed over.
  Begins-none :
      (n left i t pa k : ℕ) (s : Kernel)
      → Begins n (suc left) i t pa k s
      → leads_on (entry g.old pa i) ≡ false
      → Grown g t i 1 (tables g.old (suc n) left (i + 1) pa + k) s s
  Begins-none n left i t pa k s b off = record {
    stands = b.stands;
    grown = omega arith;
    room = omega (arith, b.room, tables-ends g.old n left i pa off);
    kept = λ c settled off. refl;
  }

  -- The copy of a table, and the loop inside.
  abbrev EnteredBelow : (n i t pa k : ℕ) (s : Kernel) (p : ℕ) (s1 s2 : Kernel) → Type 0
  EnteredBelow n i t pa k s p s1 s2 =
      let e = entry g.old pa i in
      Entered g t i (tables g.old n 512 0 (addr e) + k) e s p s1
      × Grown g p 0 512 k s1 s2
      × Copies g (suc n) p (addr e) p (frontier s2) s2.mem
      × ((pre : ℕ) → IsUpper (suc n) pre → Subtree g.offset (suc n) p pre p (frontier s2) s2.mem)

  entered_below :
      (n : ℕ) (below : ℕ → Kernel → Kernel)
      → Below g n below
      → (left i t pa k : ℕ) (s : Kernel) → Begins n (suc left) i t pa k s
      → leads_on (entry g.old pa i) ≡ true
      → let r = clone_entry t i g.old_pml4 s in
        EnteredBelow n i t pa (tables g.old (suc n) left (i + 1) pa + k) s r.0 r.1 (below r.0 r.1)
  entered_below n below spec left i t pa k s b on =
      let e = entry g.old pa i in
      let leads = Leads-of_leads_on e on in
      let lv = g.tree.below pa i (omega (arith, b.of_level)) (omega (arith, b.within)) leads in
      let of_level : g.level (addr e) ≡ suc n = omega (arith, lv, b.of_level) in
      let small = g.tree.small pa i (omega (arith, b.of_level)) (omega (arith, b.within)) leads in
      let same : entry s.mem t i ≡ e = b.same i (omega arith) (omega arith) in
      let rest = tables g.old (suc n) left (i + 1) pa + k in
      let inner = tables g.old n 512 0 (addr e) in
      let count = tables-leads g.old n left i pa on in
      let first : let r = clone_entry t i g.old_pml4 s in Entered g t i (inner + rest) e s r.0 r.1 =
        rw same at (
          clone_entry-Entered g t i (inner + rest) s b.stands b.own (omega (arith, b.within))
            (omega (arith, count, b.room)) (rw same (omega (arith, of_level))) (rw same small)) in
      let r = clone_entry t i g.old_pml4 s in
      let page : (r.0 % 4096 ≡ 0) × (g.lo ≤ r.0) × (r.0 + 4096 ≤ frontier r.1) =
        (first.aligned, omega (arith, first.fresh, b.stands.base_ok), omega (arith, first.last)) in
      let done =
        spec r.0 (addr e) rest r.1 first.grown.stands page of_level first.copied first.grown.room in
      (first, done.0, done.1, done.2)

  Looped-leads :
      (n left i t pa k p : ℕ) (s s1 s2 s3 : Kernel)
      → Begins n (suc left) i t pa k s
      → leads_on (entry g.old pa i) ≡ true
      → EnteredBelow n i t pa (tables g.old (suc n) left (i + 1) pa + k) s p s1 s2
      → Looped n left (i + 1) t pa k s2 s3
      → Looped n (suc left) i t pa k s s3
  Looped-leads n left i t pa k p s s1 s2 s3 b on (first, inner, copies, trees)
        (rest, entries, shoots) =
      let leads = Leads-of_leads_on (entry g.old pa i) on in
      let small = g.tree.small pa i (omega (arith, b.of_level)) (omega (arith, b.within)) leads in
      let both = Grown-below g t i _ _ (entry g.old pa i) p s s1 s2 first inner in
      let remains =
        Remains-of_rest g t i _ _ _ left p (entry g.old pa i) s s1 s2 s3 b.stands b.own b.within
          first inner rest in
      (
        Grown-then g t i left k _ s s2 s3 both rest,
        Entries-then g (suc n) t pa i left (frontier s) (frontier s2) (frontier s3) s3.mem
            (omega (arith, both.grown))
            (λ m' same here va.
              from_entry-cloned g n t pa i left p s s2 s3 first.fresh rest.grown leads small remains
                copies m' same here va)
            entries,
        λ pre up.
            Shoots-then g.offset n t pre i left p (frontier s) (frontier s2) (frontier s3) s3.mem
              (Subtree-same g.offset (suc n) p (pre * 512 + i) p (frontier s2) (frontier s) s2.mem
                s3.mem (trees (pre * 512 + i) (up i (omega arith))) remains.copy first.fresh)
              both.grown rest.grown (omega (arith, remains.link, remains.page, g.below))
              (omega (arith, remains.link, remains.page, g.above, g.offset_aligned))
              (shoots pre (λ j from. up j (omega arith))),
      )

  Looped-ends :
      (n left i t pa k : ℕ) (s s3 : Kernel)
      → Begins n (suc left) i t pa k s
      → leads_on (entry g.old pa i) ≡ false
      → Looped n left (i + 1) t pa k s s3
      → Looped n (suc left) i t pa k s s3
  Looped-ends n left i t pa k s s3 b off (rest, entries, shoots) =
      let settled = Own-Settled g s t i b.stands b.own (omega (arith, b.within)) in
      let kept : entry s3.mem t i ≡ entry g.old pa i =
        rest.kept (t / 8 + i) settled (omega arith) ∙ b.same i (omega arith) (omega arith) in
      (
        Grown-then g t i left k _ s s s3 (Begins-none n left i t pa k s b off) rest,
        Entries-then g (suc n) t pa i left (frontier s) (frontier s) (frontier s3) s3.mem
            (omega arith)
            (λ m' same here va.
              rw (here ∙ kept)
                (from_entry-end (through g.offset m') (identity g.old) n (entry g.old pa i) va off))
            entries,
        λ pre up.
            Shoots-skip g.offset (suc n) t pre i left (frontier s) (frontier s3) s3.mem
              (λ leads. ends (entry g.old pa i) off (rw kept at leads))
              (shoots pre (λ j from. up j (omega arith))),
      )

  pub clone_loop-Looped :
      (n : ℕ) (below : ℕ → Kernel → Kernel)
      → Below g n below
      → (left i t pa k : ℕ) (s : Kernel) → Begins n left i t pa k s
      → Looped n left i t pa k s (clone_loop below g.old_pml4 left i t s)
  unfolding clone_loop
  clone_loop-Looped n below spec zero i t pa k s b = (
    record {
      stands = b.stands;
      grown = omega arith;
      room = omega (arith, b.room, tables-none g.old n i pa);
      kept = λ c settled off. refl;
    },
    λ j from to. absurd (omega arith),
    λ pre up. Shoots-none g.offset (suc n) t pre i (frontier s) (frontier s) s.mem,
  )
  clone_loop-Looped n below spec (suc left) i t pa k s b =
      let same = b.same i (omega arith) (omega arith) in
      elim (Bool-cases (leads_on (entry g.old pa i))) [
        | inl on ↦
            let there : leads_on (entry s.mem t i) ≡ true = rw same on in
            let r = clone_entry t i g.old_pml4 s in
            let s2 = below r.0 r.1 in
            let e = entered_below n below spec left i t pa k s b on in
            let both = Grown-below g t i _ _ (entry g.old pa i) r.0 s r.1 s2 e.0 e.1 in
            rw there (
              Looped-leads n left i t pa k r.0 s r.1 s2 _ b on e (
                clone_loop-Looped n below spec left (i + 1) t pa k s2
                  (Begins-next n left i t pa k k s s2 b both)))
        | inr off ↦
            let there : leads_on (entry s.mem t i) ≡ false = rw same off in
            rw there (
              Looped-ends n left i t pa k s _ b off (
                clone_loop-Looped n below spec left (i + 1) t pa k s
                  (Begins-next n left i t pa k k s s b (Begins-none n left i t pa k s b off))))
      ]

  -- The loop over a whole table.
  Below-loop :
      (n : ℕ) (below : ℕ → Kernel → Kernel)
      → Below g n below
      → Below g (suc n) (λ p s. clone_loop below g.old_pml4 512 0 p s)
  Below-loop n below spec p pa k s st page lv same room =
      let done = clone_loop-Looped n below spec 512 0 p pa k s (record {
        stands = st;
        own = inl page;
        of_level = lv;
        within = omega arith;
        same = λ j from to. same j (omega arith);
        room = room;
      }) in
      let s' = clone_loop below g.old_pml4 512 0 p s in
      (
        done.0,
        Copies-of_entries g (suc n) p pa p (frontier s') (frontier s) s'.mem page
            (Stands-frontier g s st) (omega arith) (omega (arith, page, done.0.grown))
            (omega (arith, lv))
            (λ m' agree j lt va.
              done.1 j (omega arith) lt m' (λ c from to. agree c (omega (arith, page)) to)
                (agree (p / 8 + j) (omega (arith, page)) (omega (arith, page, done.0.grown))) va),
        λ pre up.
            Shoots-Subtree g.offset n p pre (frontier s) (frontier s') s'.mem page.0 page.2
              done.0.grown up (done.2 pre (λ j from. IsUpper-below n pre j up)),
      )

  pub clone_pdpt-Below : Below g 2 (clone_pdpt g.old_pml4)
  unfolding clone_pdpt clone_pd
  clone_pdpt-Below = Below-loop 1 (clone_pd g.old_pml4) (Below-loop 0 clone_pt (clone_pt-Below g))
