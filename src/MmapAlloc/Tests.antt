-- ===== src/MmapAlloc/Tests.antt =====
-- Runs on the toy system, from a mapping of two pages of the default size.
use vec.Base.{ℕ, ◌≤◌, refl, none, true, false, arith, within, if◌then◌else◌}
use vec.Build.{Config, IsBuilt}
use vec.PageSize.{uses_mmap, mapped_size, round_to}
use vec.Machine.{free, paged, Layout, Mem}
use vec.Machine.Toy.{toy}
use vec.Machine.Toy.Laws.{toy_laws}
use vec.Machine.Effect.{Zeros}
use vec.Allocator.{IsLayout, Allocated, Resized, Deallocated, Ends, Completes}
use vec.MmapAlloc.{allocate, allocate_zeroed, deallocate, grow, shrink, grow_zeroed}
use vec.MmapAlloc.Hybrid.{hybrid}
use vec.MmapAlloc.Fresh.{allocate-hybrid, allocate_zeroed-hybrid, deallocate-hybrid}
use vec.MmapAlloc.Correct.{grow-hybrid, grow_zeroed-hybrid}
use vec.MmapAlloc.Shrink.{shrink-hybrid}
use vec.MmapAlloc.Remap.{Grown}

abbrev built : Config
built = record { huge_page = 262144; mmap = true; giant_pages = false; thp = true }

abbrev built_laws : IsBuilt built
built_laws = record { bits = 18; power = refl; least = omega arith; most = omega arith }

abbrev layout : ℕ → Layout
layout n = record { size = n; align = 8 }

layout-IsLayout : (n : ℕ) → n ≤ 1000000 → IsLayout (layout n)
layout-IsLayout n h = record {
  bits = 3;
  align_is = refl;
  align_most = omega arith;
  fits = omega arith;
  room = omega arith;
}

abbrev start : ℕ
start = 1048576

-- The 524288 bytes at `start` are mapped.
abbrev used : Mem
used = record {
  byte = λ a. a;
  owner = λ a. if within start 524288 a then paged else free;
  block = λ p. none;
  world = 1572864;
}

used-Ok : toy.Ok used
unfolding within
used-Ok a h = ground arith

used-Holds : (hybrid built toy).Holds used start (layout 300000)
unfolding uses_mmap mapped_size round_to
used-Holds = record { mapped = λ a h. rw h; whole = refl }

allocate_mapped_example :
    Ends
      (hybrid built toy)
      used
      (λ p n m1. Allocated (hybrid built toy) used m1 (layout 300000) p n)
      (allocate built toy (layout 300000) used)
allocate_mapped_example =
    allocate-hybrid built_laws toy_laws (layout 300000) used (layout-IsLayout 300000 (omega arith))
      (omega arith) used-Ok

allocate_zeroed_mapped_example :
    Ends
      (hybrid built toy)
      used
      (λ p n m1. Allocated (hybrid built toy) used m1 (layout 300000) p n × Zeros m1 p n)
      (allocate_zeroed built toy (layout 300000) used)
allocate_zeroed_mapped_example =
    allocate_zeroed-hybrid built_laws toy_laws (layout 300000) used
      (layout-IsLayout 300000 (omega arith)) (omega arith) used-Ok

deallocate_mapped_example :
    Completes
      (λ m1. Deallocated (hybrid built toy) used m1 start (layout 300000))
      (deallocate built toy start (layout 300000) used)
unfolding toy_laws
deallocate_mapped_example =
    deallocate-hybrid built_laws toy_laws start (layout 300000) used (omega arith) (omega arith)
      (layout-IsLayout 300000 (omega arith)) used-Ok used-Holds

grow_mapped_example :
    Ends
      (hybrid built toy)
      used
      (λ q n m1.
        Resized (hybrid built toy) used m1 start (layout 300000) q (layout 600000) n 300000)
      (grow built toy start (layout 300000) (layout 600000) used)
unfolding toy_laws
grow_mapped_example =
    grow-hybrid built_laws toy_laws (omega arith) (omega arith) start (layout 300000)
      (layout 600000) used (layout-IsLayout 300000 (omega arith))
      (layout-IsLayout 600000 (omega arith)) refl (omega arith) (omega arith) used-Ok used-Holds

grow_zeroed_mapped_example :
    Ends
      (hybrid built toy)
      used
      (Grown built toy used start (layout 300000) (layout 600000))
      (grow_zeroed built toy start (layout 300000) (layout 600000) used)
unfolding toy_laws
grow_zeroed_mapped_example =
    grow_zeroed-hybrid built_laws toy_laws (omega arith) (omega arith) start (layout 300000)
      (layout 600000) used (layout-IsLayout 300000 (omega arith))
      (layout-IsLayout 600000 (omega arith)) (omega arith) (omega arith) used-Ok used-Holds

shrink_mapped_example :
    Ends
      (hybrid built toy)
      used
      (λ q n m1.
        Resized (hybrid built toy) used m1 start (layout 300000) q (layout 262144) n 262144)
      (shrink built toy start (layout 300000) (layout 262144) used)
unfolding toy_laws
shrink_mapped_example =
    shrink-hybrid built_laws toy_laws (omega arith) (omega arith) start (layout 300000)
      (layout 262144) used (layout-IsLayout 300000 (omega arith))
      (layout-IsLayout 262144 (omega arith)) (omega arith) (omega arith) used-Ok used-Holds refl
