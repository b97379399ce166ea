-- ===== src/Heap/Tests.antt =====
-- The allocator's theorems at a concrete heap.
use aidos.Common.{ℕ, ◌+◌, ◌-◌, ◌^◌, ◌≡◌, refl, arith, List, [], ◌∷◌, leb, if◌then◌else◌}
use aidos.Heap.{Heap, null, kmalloc}
use aidos.Heap.Laws.{IsHeap, round_up, kmalloc_lem, kmalloc_wraps}
use aidos.Heap.Blocks.{Laid, serve, serve-Laid}

abbrev page_heap : Heap
page_heap = record { heap_base = 0x10_0008; heap_size = 0x3000; heap_offset = 0x20 }

page_heap-IsHeap : IsHeap page_heap
page_heap-IsHeap = omega arith

first_page :
    kmalloc 0x1000 0x1000 page_heap ≡ (0x10_1000, record page_heap { heap_offset = 0x1ff8 })
unfolding kmalloc
first_page = refl

exhausted : (kmalloc 0x3000 8 page_heap).0 ≡ null
unfolding kmalloc
exhausted = refl

kmalloc_lem_example : kmalloc 0x1000 (2 ^ 12) page_heap ≡ (
    if leb (page_heap.heap_base + page_heap.heap_size) (round_up 12 0x10_0028 + 0x1000)
    then (null, page_heap)
    else (
      round_up 12 0x10_0028,
      record page_heap { heap_offset = round_up 12 0x10_0028 + 0x1000 - page_heap.heap_base },
    ))
kmalloc_lem_example = kmalloc_lem 0x1000 12 page_heap page_heap-IsHeap (omega arith) (omega arith)

abbrev requests : List (ℕ × ℕ)
requests = (0x10, 3) ∷ (0x1000, 12) ∷ (0x4000, 12) ∷ []

serve-Laid_example :
    Laid
      (page_heap.heap_base + page_heap.heap_size)
      (page_heap.heap_base + page_heap.heap_offset)
      requests
      (serve requests page_heap)
serve-Laid_example = serve-Laid requests page_heap page_heap-IsHeap (omega arith)

-- At the alignment of `operator new`.
kmalloc_wraps_example :
    kmalloc (2 ^ 64 - 0x18) (2 ^ 3) page_heap
    ≡ (page_heap.heap_base + page_heap.heap_offset, record page_heap { heap_offset = 0x20 - 0x18 })
kmalloc_wraps_example =
    kmalloc_wraps 3 0x18 page_heap page_heap-IsHeap (omega arith) (omega arith) (omega arith)
      (omega arith) (omega arith)
