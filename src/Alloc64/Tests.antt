-- ===== src/Alloc64/Tests.antt =====
-- Runs on the toy system, from an empty heap and from one block of two bytes.
use vec.Base.{ℕ, ◌≤◌, refl, none, some, true, false, arith, within, if◌then◌else◌, ◌==◌}
use vec.Build.{Config}
use vec.Machine.{free, heaped, Layout, Mem}
use vec.Machine.Toy.{toy}
use vec.Machine.Toy.Laws.{toy_laws}
use vec.Allocator.{IsLayout, Resized, Ends, ZeroedPast}
use vec.Alloc64.{grow_zeroed}
use vec.Alloc64.Heap.{HeapBlock, heap_holding}
use vec.Alloc64.Correct.{grow_zeroed-Resized}

abbrev built : Config
built = record { huge_page = 262144; mmap = false; giant_pages = false; thp = true }

abbrev layout : ℕ → Layout
layout n = record { size = n; align = 8 }

layout-IsLayout : (n : ℕ) → n ≤ 1000 → IsLayout (layout n)
layout-IsLayout n h = record {
  bits = 3;
  align_is = refl;
  align_most = omega arith;
  fits = omega arith;
  room = omega arith;
}

-- The 100 bytes at 64 are a heap block.
abbrev used : Mem
used = record {
  byte = λ a. a;
  owner = λ a. if within 64 100 a then heaped else free;
  block = λ p. if p == 64 then some (record { size = 100; align = 64 }) else none;
  world = 164;
}

used-Ok : toy.Ok used
unfolding within
used-Ok a h = ground arith

used-HeapBlock : HeapBlock used 64 (layout 100)
used-HeapBlock = record { at = refl; bytes_held = λ a h. rw h }

grow_zeroed_example :
    Ends heap_holding used
      (λ q n m'.
        Resized heap_holding used m' 64 (layout 100) q (layout 200) n 100
        × ZeroedPast used m' 64 100 100 q n)
      (grow_zeroed built toy 64 (layout 100) (layout 200) used)
grow_zeroed_example =
    grow_zeroed-Resized built toy_laws 64 (layout 100) (layout 200) used
      (layout-IsLayout 100 (omega arith)) (layout-IsLayout 200 (omega arith)) (omega arith)
      (omega arith) used-Ok used-HeapBlock
