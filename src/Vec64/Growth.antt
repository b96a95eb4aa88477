-- ===== src/Vec64/Growth.antt =====
-- A `Vec::reserve` over the allocators of the crate, as a client of the trait `Allocator` makes room: a vector without a buffer
-- allocates one, another one grows its own. How much it asks for beyond what is needed is a parameter.
pub mod Kept
pub mod Reserve
mod Tests
use vec.Base.{ℕ, ◌+◌, ◌-◌, ◌*◌, ◌^◌, Bool, true, false, ◌||◌, leb, ltb, ◌==◌, if◌then◌else◌}
use vec.Base.Outcome.{Outcome, done, panic}
use vec.Build.{Config}
use vec.Machine.{Mem, Sys, Layout}
use vec.Allocator.{Call}
use vec.Vec64.Raw.{RawVec}
use vec.Vec64.Held.{layout_of}
use vec.Vec64.New.{allocate_by, over}
use vec.Alloc64
use vec.MmapAlloc

-- `Vec64Alloc::grow`
abbrev pub grow_by : Bool → Config → Sys → ℕ → Layout → Layout → Mem → Call
grow_by true c s p old new m = MmapAlloc.grow c s p old new m
grow_by false c s p old new m = Alloc64.grow c s p old new m

module _ (slack : ℕ → ℕ → ℕ) (c : Config) (s : Sys) (elem align : ℕ) where
  -- To a capacity of `cap`. Sizes that no layout has, or that would not have one after raising the alignment, are
  -- a capacity overflow.
  pub grow_to : ℕ → RawVec → Mem → Outcome (RawVec × Mem)
  grow_to cap v m =
      if elem == 0 || ltb (2 ^ 63 - align) (cap * elem) || ltb (2 ^ 63 - 64) (cap * elem)
      then panic
      else over v.len cap (
          if v.cap == 0
          then allocate_by c.mmap c s (layout_of elem align cap) m
          else grow_by c.mmap c s v.ptr (layout_of elem align v.cap) (layout_of elem align cap) m)

  pub reserve_by : RawVec → ℕ → Mem → Outcome (RawVec × Mem)
  reserve_by v n m =
      if leb (v.len + n) v.cap then done (v, m) else grow_to (v.len + n + slack v.cap n) v m
