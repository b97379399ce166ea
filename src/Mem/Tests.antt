-- ===== src/Mem/Tests.antt =====
-- The memory routines at concrete ranges.
use aidos.Common.{◌+◌, ◌-◌, ◌≡◌, inl, refl, arith, ◌&&◌, leb, ltb, if◌then◌else◌, pos, negsuc}
use aidos.Mem.{Memory, memcmp, memcpy, memset}
use aidos.Mem.Laws.{memcpy_lem}

abbrev numbered : Memory
numbered a = a

copied : (memcpy numbered 10 20 3 12 ≡ 22) × (memset numbered 5 0x1ff 2 6 ≡ 0xff)
unfolding memcpy memset
copied = (refl, refl)

compared : (memcmp numbered 1 2 4 ≡ negsuc 0) × (memcmp numbered 7 7 4 ≡ pos 0)
unfolding memcmp
compared = (refl, refl)

memcpy_lem_example :
    memcpy numbered 10 20 3 12 ≡ (if leb 10 12 && ltb 12 (10 + 3) then 20 + (12 - 10) else 12)
memcpy_lem_example = memcpy_lem numbered 10 20 3 12 (inl (omega arith))
