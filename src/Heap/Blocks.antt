-- ===== src/Heap/Blocks.antt =====
-- What `kmalloc` gives out: one block, and the blocks of a run of requests.
use aidos.Common.{
  ℕ, ◌+◌, ◌%◌, ◌^◌, ◌≤◌, ◌<◌, ◌≡◌, ◌⊎◌, inl, inr, refl, arith, List, [], ◌∷◌, leb, Bool-cases,
}
use aidos.Heap.{Heap, null, kmalloc}
use aidos.Heap.Laws.{IsHeap, round_up, round_up_bounds, kmalloc_lem}

-- A request that `kmalloc` can serve with no wrap-around of a 64-bit sum.
-- `end` is the address behind the heap.
abbrev pub Fits : (size k end : ℕ) → Type 0
Fits size k end = (k < 64) × (end + size + 2 ^ k + 2 ^ k < 2 ^ 64)

-- A block of `size` cells at `p`, cut from the free part of the heap `h`, which leaves `h'`.
pub record IsBlock (size k : ℕ) (h : Heap) (p : ℕ) (h' : Heap) : Type 0 where
  pub aligned : p % 2 ^ k ≡ 0
  pub above : h.heap_base + h.heap_offset ≤ p
  pub tight : p < h.heap_base + h.heap_offset + 2 ^ k
  pub inside : p + size < h.heap_base + h.heap_size
  pub next : h.heap_base + h'.heap_offset ≡ p + size
  pub same_base : h'.heap_base ≡ h.heap_base
  pub same_size : h'.heap_size ≡ h.heap_size

-- Either there is no room and the heap is as before, or a block is given out.
abbrev pub Served : ℕ → ℕ → Heap → ℕ × Heap → Type 0
Served size k h r =
    ((r ≡ (null, h))
      × (h.heap_base + h.heap_size ≤ round_up k (h.heap_base + h.heap_offset) + size))
    ⊎ IsBlock size k h r.0 r.1

pub kmalloc-Served :
    (size k : ℕ) (h : Heap)
    → IsHeap h
    → Fits size k (h.heap_base + h.heap_size)
    → Served size k h (kmalloc size (2 ^ k) h)
kmalloc-Served size k h ok fits =
    let bounds = round_up_bounds k (h.heap_base + h.heap_offset) in
    rw (kmalloc_lem size k h ok fits.0 (omega (arith, bounds)))
      (elim (Bool-cases
        (leb (h.heap_base + h.heap_size) (round_up k (h.heap_base + h.heap_offset) + size))) [
          | inl full ↦ rw full (inl (refl, ground arith))
          | inr room ↦ rw room (
              inr (record {
                aligned = bounds.2;
                above = bounds.0;
                tight = bounds.1;
                inside = ground arith;
                next = omega (arith, bounds);
                same_base = refl;
                same_size = refl;
              }))
        ])

pub IsBlock-IsHeap : {size k p : ℕ} {h h' : Heap} → IsHeap h → IsBlock size k h p h' → IsHeap h'
IsBlock-IsHeap ok b = omega arith

-- The pointers that a run of requests (size and exponent of the alignment) is answered with.
unfoldable pub serve : List (ℕ × ℕ) → Heap → List ℕ
serve [] h = []
serve ((size, k) ∷ rs) h = let r = kmalloc size (2 ^ k) h in r.0 ∷ serve rs r.1

abbrev pub AllFit : List (ℕ × ℕ) → ℕ → Type 0
AllFit [] end = Unit {0}
AllFit ((size, k) ∷ rs) end = Fits size k end × AllFit rs end

-- The answers to the requests that got a block lie one behind the other between `lo` and `hi`, each
-- aligned as asked; the others are null.
pub data Laid (hi : ℕ) : ℕ → List (ℕ × ℕ) → List ℕ → Type 0 where
  done : {lo : ℕ} → Laid hi lo [] []
  refused :
      {lo size k : ℕ} {rs : List (ℕ × ℕ)} {ps : List ℕ}
      → Laid hi lo rs ps
      → Laid hi lo ((size, k) ∷ rs) (null ∷ ps)
  placed :
      {lo size k p : ℕ} {rs : List (ℕ × ℕ)} {ps : List ℕ}
      → p % 2 ^ k ≡ 0
      → lo ≤ p
      → p + size < hi
      → Laid hi (p + size) rs ps
      → Laid hi lo ((size, k) ∷ rs) (p ∷ ps)

from-Laid :
    (rs : List (ℕ × ℕ)) (h : Heap) (lo hi : ℕ)
    → IsHeap h
    → AllFit rs hi
    → h.heap_base + h.heap_offset ≡ lo
    → h.heap_base + h.heap_size ≡ hi
    → Laid hi lo rs (serve rs h)
unfolding serve
from-Laid [] h lo hi ok fit e e' = done
from-Laid ((size, k) ∷ rs) h lo hi ok fit e e' = elim (kmalloc-Served size k h ok (rw e' fit.0)) [
  | inl (kept, _) ↦ rw kept (refused (from-Laid rs h lo hi ok fit.1 e e'))
  | inr b ↦ placed b.aligned (omega arith) (omega arith) (
      from-Laid rs (kmalloc size (2 ^ k) h).1 ((kmalloc size (2 ^ k) h).0 + size) hi
        (IsBlock-IsHeap ok b) fit.1 (omega arith) (omega arith))
]

-- From a well-formed heap, the blocks of one run, served where no sum wraps, lie inside the heap one behind the other, each
-- aligned as asked; a request that is not served is answered with null.
pub serve-Laid :
    (rs : List (ℕ × ℕ)) (h : Heap)
    → IsHeap h
    → AllFit rs (h.heap_base + h.heap_size)
    → Laid (h.heap_base + h.heap_size) (h.heap_base + h.heap_offset) rs (serve rs h)
serve-Laid rs h ok fit = from-Laid rs h _ _ ok fit refl refl
