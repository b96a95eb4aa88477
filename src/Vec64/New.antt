-- ===== src/Vec64/New.antt =====
-- src/vec64.rs: the ways to make a vector from nothing or from parts.
pub mod Fresh
pub mod Correct
pub mod Bytes
pub mod Slice
use vec.Base.{
  ℕ, ◌-◌, ◌*◌, ◌/◌, ◌%◌, Option, none, some, Bool, true, false, not, ◌||◌, ◌==◌, if◌then◌else◌,
}
use vec.Base.Usize.{usize_mod}
use vec.Base.Outcome.{Outcome, done, panic, ◌>>=◌}
use vec.Build.{Config}
use vec.Machine.{Mem, Sys, Layout}
use vec.Allocator.{Call}
use vec.Vec64.Raw.{RawVec, copy_nonoverlapping}
use vec.Alloc64.{from_size_align}
use vec.Alloc64
use vec.MmapAlloc

-- `Vec64Alloc::allocate` and `Vec64Alloc::allocate_zeroed`
abbrev pub allocate_by : Bool → Config → Sys → Layout → Mem → Call
allocate_by true c s l m = MmapAlloc.allocate c s l m
allocate_by false c s l m = Alloc64.allocate c s l m

abbrev pub allocate_zeroed_by : Bool → Config → Sys → Layout → Mem → Call
allocate_zeroed_by true c s l m = MmapAlloc.allocate_zeroed c s l m
allocate_zeroed_by false c s l m = Alloc64.allocate_zeroed c s l m

-- The vector over a block. A failed allocation ends the process, which is a panic here.
abbrev pub over : ℕ → ℕ → Call → Outcome (RawVec × Mem)
over len cap none = panic
over len cap (some (none, m)) = panic
over len cap (some (some (p, n), m)) = done (record { ptr = p; len = len; cap = cap }, m)

abbrev pub with_layout : Option Layout → (Layout → Call) → ℕ → ℕ → Outcome (RawVec × Mem)
with_layout none f len cap = panic
with_layout (some l) f len cap = over len cap (f l)

-- `dangling` is the address of a vector without a buffer.
module _ (dangling : ℕ) (c : Config) (s : Sys) (elem align : ℕ) where
  -- `Vec::new_in`
  abbrev pub new : RawVec
  new = record { ptr = dangling; len = 0; cap = if elem == 0 then usize_mod - 1 else 0 }

  -- `Vec::with_capacity_in`
  pub with_capacity : ℕ → Mem → Outcome (RawVec × Mem)
  with_capacity cap m =
      if cap == 0 || elem == 0
      then done (new, m)
      else with_layout (from_size_align (cap * elem) align) (λ l. allocate_by c.mmap c s l m) 0 cap

  abbrev pub set_len : ℕ → RawVec × Mem → RawVec × Mem
  set_len len (v, m) = (record v { len = len }, m)

  pub zeroed : ℕ → Mem → Outcome (RawVec × Mem)
  zeroed len m =
      if len == 0 || elem == 0
      then (do r ← with_capacity len m; done (set_len len r))
      else with_layout (from_size_align (len * elem) align) (λ l. allocate_zeroed_by c.mmap c s l m)
          len len

  -- The slice is memory of somebody else's.
  pub from_slice : ℕ → ℕ → Mem → Outcome (RawVec × Mem)
  from_slice src len m = do
    (v, m1) ← with_capacity len m
    m2 ← copy_nonoverlapping src v.ptr (len * elem) m1
    done (set_len len (v, m2))

-- `elem` is the size of the new element type; a division by 0 panics.
pub from_vec64_u8 : ℕ → RawVec → Outcome RawVec
from_vec64_u8 elem buf =
    if elem == 0
    then panic
    else if not (buf.len % elem == 0)
    then panic
    else if not (buf.cap % elem == 0)
    then panic
    else done (record { ptr = buf.ptr; len = buf.len / elem; cap = buf.cap / elem })

-- With debug assertions.
pub from_raw_parts : ℕ → ℕ → ℕ → Outcome RawVec
from_raw_parts ptr len capacity =
    if ptr % 64 == 0 then done (record { ptr = ptr; len = len; cap = capacity }) else panic
