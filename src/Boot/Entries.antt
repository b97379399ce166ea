-- ===== src/Boot/Entries.antt =====
-- The entries of the four tables that `setup_paging` leaves.
use aidos.Common.{
  ℕ, ◌+◌, ◌*◌, ◌/◌, ◌%◌, ◌≤◌, ◌<◌, ◌≡◌, ◌≢◌, ◌∙◌, leb, ◌&&◌, refl, sym, arith, true, false, ltb,
  ◌==◌, if◌then◌else◌,
}
use aidos.Paging.{entry}
use aidos.Boot.{Boot}
use aidos.Mem.{Memory}
use aidos.Boot.Setup.{IsPlaced, IsLaidOut, after}

misses :
    (t u i n : ℕ)
    → t % 4096 ≡ 0
    → u % 4096 ≡ 0
    → t ≢ u
    → i < 512
    → n ≤ 512
    → (leb (u / 8) (t / 8 + i) && ltb (t / 8 + i) (u / 8 + n)) ≡ false
misses t u i n a b ne h small = ground arith

misses_head :
    (t u i : ℕ) → t % 4096 ≡ 0 → u % 4096 ≡ 0 → t ≢ u → i < 512 → (t / 8 + i == u / 8) ≡ false
misses_head t u i a b ne h = ground arith

hits : (t i n : ℕ) → i < n → (leb (t / 8) (t / 8 + i) && ltb (t / 8 + i) (t / 8 + n)) ≡ true
hits t i n h = ground arith

hits_head : (t i : ℕ) → (t / 8 + i == t / 8) ≡ (i == 0)
hits_head t i = ground arith

-- The content of the four tables.
pub record HoldsTables (s : Boot) (m : Memory) : Type 0 where
  pub at_pml4 : (i : ℕ) → i < 512 → entry m s.pml4 i ≡ (if i == 0 then s.pdpt + 3 else 0)
  pub at_pdpt : (i : ℕ) → i < 512 → entry m s.pdpt i ≡ (if i == 0 then s.pd + 3 else 0)
  pub at_pd : (i : ℕ) → i < 512 → entry m s.pd i ≡ (if i == 0 then s.pt + 3 else 0)
  pub at_pt : (i : ℕ) → i < 512 → entry m s.pt i ≡ (if ltb i 256 then i * 4096 + 3 else 0)

module _ (s : Boot) (laid : IsLaidOut s) (m : Memory) (cells : (c : ℕ) → m c ≡ after s c) where
  miss :
      {t : ℕ} (u i n : ℕ)
      → IsPlaced s t
      → IsPlaced s u
      → t ≢ u
      → i < 512
      → n ≤ 512
      → (leb (u / 8) (t / 8 + i) && ltb (t / 8 + i) (u / 8 + n)) ≡ false
  miss {t} u i n p q ne h small = misses t u i n p.aligned q.aligned ne h small

  miss_head :
      {t : ℕ} (u i : ℕ)
      → IsPlaced s t
      → IsPlaced s u
      → t ≢ u
      → i < 512
      → (t / 8 + i == u / 8) ≡ false
  miss_head {t} u i p q ne h = misses_head t u i p.aligned q.aligned ne h

  entry_at_pml4 : (i : ℕ) → i < 512 → entry m s.pml4 i ≡ (if i == 0 then s.pdpt + 3 else 0)
  entry_at_pml4 i h =
      cells (s.pml4 / 8 + i)
      ∙ rw
          (
            miss s.pt i 256 laid.pml4 laid.pt laid.pml4_pt h (omega arith),
            miss_head s.pd i laid.pml4 laid.pd laid.pml4_pd h,
            miss_head s.pdpt i laid.pml4 laid.pdpt laid.pml4_pdpt h,
            hits_head s.pml4 i,
            miss s.pt i 512 laid.pml4 laid.pt laid.pml4_pt h (omega arith),
            miss s.pd i 512 laid.pml4 laid.pd laid.pml4_pd h (omega arith),
            miss s.pdpt i 512 laid.pml4 laid.pdpt laid.pml4_pdpt h (omega arith),
            hits s.pml4 i 512 h,
          )
          refl

  entry_at_pdpt : (i : ℕ) → i < 512 → entry m s.pdpt i ≡ (if i == 0 then s.pd + 3 else 0)
  entry_at_pdpt i h =
      cells (s.pdpt / 8 + i)
      ∙ rw
          (
            miss s.pt i 256 laid.pdpt laid.pt laid.pdpt_pt h (omega arith),
            miss_head s.pd i laid.pdpt laid.pd laid.pdpt_pd h,
            hits_head s.pdpt i,
            miss_head s.pml4 i laid.pdpt laid.pml4 (λ e. laid.pml4_pdpt (sym e)) h,
            miss s.pt i 512 laid.pdpt laid.pt laid.pdpt_pt h (omega arith),
            miss s.pd i 512 laid.pdpt laid.pd laid.pdpt_pd h (omega arith),
            hits s.pdpt i 512 h,
          )
          refl

  entry_at_pd : (i : ℕ) → i < 512 → entry m s.pd i ≡ (if i == 0 then s.pt + 3 else 0)
  entry_at_pd i h =
      cells (s.pd / 8 + i)
      ∙ rw
          (
            miss s.pt i 256 laid.pd laid.pt laid.pd_pt h (omega arith),
            hits_head s.pd i,
            miss_head s.pdpt i laid.pd laid.pdpt (λ e. laid.pdpt_pd (sym e)) h,
            miss_head s.pml4 i laid.pd laid.pml4 (λ e. laid.pml4_pd (sym e)) h,
            miss s.pt i 512 laid.pd laid.pt laid.pd_pt h (omega arith),
            hits s.pd i 512 h,
          )
          refl

  entry_at_pt : (i : ℕ) → i < 512 → entry m s.pt i ≡ (if ltb i 256 then i * 4096 + 3 else 0)
  entry_at_pt i h =
      cells (s.pt / 8 + i)
      ∙ rw
          (
            miss_head s.pd i laid.pt laid.pd (λ e. laid.pd_pt (sym e)) h,
            miss_head s.pdpt i laid.pt laid.pdpt (λ e. laid.pdpt_pt (sym e)) h,
            miss_head s.pml4 i laid.pt laid.pml4 (λ e. laid.pml4_pt (sym e)) h,
            hits s.pt i 512 h,
          )
          (ground arith)

  pub after-HoldsTables : HoldsTables s m
  after-HoldsTables = record {
    at_pml4 = entry_at_pml4;
    at_pdpt = entry_at_pdpt;
    at_pd = entry_at_pd;
    at_pt = entry_at_pt;
  }
