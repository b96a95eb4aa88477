-- ===== src/Global/Tests.antt =====
-- Runs on the toy system, from an empty memory.
use vec.Base.{if◌then◌else◌, some, ℕ, ◌≤◌, ◌≡◌, refl, none, true, false, arith}
use vec.Build.{Config}
use vec.PageSize.{mapped_size, round_to}
use vec.Machine.{may_move, free, Layout, Mem}
use vec.Machine.Toy.{toy}
use vec.Allocator.{IsLayout}
use vec.MmapAlloc
use vec.Alloc64
use vec.Global.Heap64
use vec.Global.{thin, realloc}
use vec.Global.Agree.{refused, realloc-grow, Heap64-Alloc64}

abbrev built : Config
built = record { huge_page = 262144; mmap = true; giant_pages = false; thp = false }

abbrev layout : ℕ → Layout
layout n = record { size = n; align = 8 }

layout-IsLayout : (n : ℕ) → n ≤ 1000000 → IsLayout (layout n)
layout-IsLayout n h = record {
  bits = 3;
  align_is = refl;
  align_most = omega arith;
  fits = omega arith;
  room = omega arith;
}

abbrev empty : Mem
empty = record { byte = λ a. a; owner = λ a. free; block = λ p. none; world = 100 }

global_realloc_grow_example : realloc built toy 4096 (layout 300000) 600000 empty ≡ (
    if refused built toy 4096 (layout 300000) (layout 600000) empty
    then some (0, (toy.mremap 4096 524288 786432 may_move empty).1)
    else thin (MmapAlloc.grow built toy 4096 (layout 300000) (layout 600000) empty))
unfolding mapped_size round_to
global_realloc_grow_example =
    realloc-grow built toy 4096 (layout 300000) (layout 600000) empty
      (layout-IsLayout 300000 (omega arith)) (layout-IsLayout 600000 (omega arith)) (omega arith)

alloc64_global_example :
    (Heap64.alloc toy (layout 10) empty ≡ thin (Alloc64.allocate built toy (layout 10) empty))
    × (Heap64.alloc_zeroed toy (layout 10) empty
        ≡ thin (Alloc64.allocate_zeroed built toy (layout 10) empty))
    × (Heap64.dealloc toy 64 (layout 10) empty ≡ Alloc64.deallocate built toy 64 (layout 10) empty)
    × (Heap64.realloc toy 64 (layout 10) 20 empty
        ≡ thin (Alloc64.grow built toy 64 (layout 10) (layout 20) empty))
    × (Heap64.realloc toy 64 (layout 10) 20 empty
        ≡ thin (Alloc64.shrink built toy 64 (layout 10) (layout 20) empty))
alloc64_global_example =
    Heap64-Alloc64 built toy 64 (layout 10) (layout 20) empty refl
      (layout-IsLayout 10 (omega arith)) (layout-IsLayout 20 (omega arith))
