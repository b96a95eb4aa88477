-- ===== src/Vec64/Append.antt =====
-- src/vec64.rs: `extend_from_vec64` and `try_mremap_append`, which takes over the other vector's
-- pages. What `Vec::extend` does is written out, with `Vec::reserve` as a parameter.
pub mod Free
pub mod Elements
pub mod Pages
pub mod Tried
pub mod Correct
pub mod Absorb
pub mod Aligned
mod Tests
use vec.Base.{
  ℕ, ◌+◌, ◌-◌, ◌*◌, Option, none, some, Bool, true, false, not, ◌||◌, bit_and, ltb, ◌==◌,
  if◌then◌else◌,
}
use vec.Base.Usize.{usize_sub}
use vec.Base.Outcome.{Outcome, done, panic, ◌>>=◌}
use vec.Build.{Config}
use vec.Build.Pow2.{is_power_of_two}
use vec.PageSize.{uses_mmap}
use vec.Machine.{Mem, Sys, Layout, fixed, map_failed}
use vec.Vec64.Raw.{RawVec, copy_nonoverlapping}
use vec.Vec64.Held.{layout_of}
use vec.Alloc64
use vec.MmapAlloc

-- `Vec64Alloc::deallocate`
abbrev pub deallocate_by : Bool → Config → Sys → ℕ → Layout → Mem → Option Mem
deallocate_by true c s p l m = MmapAlloc.deallocate c s p l m
deallocate_by false c s p l m = Alloc64.deallocate c s p l m

-- The panic of a call.
abbrev pub unwrap : Option Mem → Outcome Mem
unwrap none = panic
unwrap (some m) = done m

module _ (c : Config) (s : Sys) (elem align : ℕ) where
  -- The buffer of a vector without elements is given back.
  pub free_buffer : RawVec → Mem → Outcome Mem
  free_buffer v m =
      if v.cap * elem == 0
      then done m
      else unwrap (deallocate_by c.mmap c s v.ptr (layout_of elem align v.cap) m)

  -- After `mremap`. `none` stands for `Some(other)`: the caller moves the elements.
  abbrev pub appended : RawVec → RawVec → ℕ × Mem → Option RawVec × Mem
  appended v w (r, m) =
      if r == map_failed then (none, m) else (some (record v { len = v.len + w.len }), m)

  pub try_mremap_append : RawVec → RawVec → Mem → Option RawVec × Mem
  try_mremap_append v w m =
      let dst_offset_bytes = v.len * elem in
      let src_bytes = w.len * elem in
      let page = s.page_size in
      if elem == 0
      then (none, m)
      else if ltb (v.cap - v.len) w.len
      then (none, m)
      else if not (w.cap == w.len)
      then (none, m)
      else if not (bit_and src_bytes (usize_sub c.huge_page 1) == 0)
      then (none, m)
      else if page == 0 || not (is_power_of_two page)
      then (none, m)
      else if not (bit_and dst_offset_bytes (usize_sub page 1) == 0)
      then (none, m)
      else if not (uses_mmap c (v.cap * elem)) || not (uses_mmap c (w.cap * elem))
      then (none, m)
      else appended v w (s.mremap w.ptr src_bytes src_bytes (fixed (v.ptr + dst_offset_bytes)) m)

module _ (reserve : RawVec → ℕ → Mem → Outcome (RawVec × Mem)) (c : Config) (s : Sys)
    (elem align : ℕ) where
  -- `Vec::extend` by the elements of a vector, whose buffer is given back.
  pub extend : RawVec → RawVec → Mem → Outcome (RawVec × Mem)
  extend v w m = do
    (v1, m1) ← reserve v w.len m
    m2 ← copy_nonoverlapping w.ptr (v1.ptr + v1.len * elem) (w.len * elem) m1
    m3 ← free_buffer c s elem align w m2
    done (record v1 { len = v1.len + w.len }, m3)

  abbrev pub or_extend : RawVec → RawVec → Option RawVec × Mem → Outcome (RawVec × Mem)
  or_extend v w (none, m) = extend v w m
  or_extend v w (some v1, m) = done (v1, m)

  pub extend_from_vec64 : RawVec → RawVec → Mem → Outcome (RawVec × Mem)
  extend_from_vec64 v w m =
      if w.len == 0
      then (do m1 ← free_buffer c s elem align w m; done (v, m1))
      else if c.mmap
      then or_extend v w (try_mremap_append c s elem align v w m)
      else extend v w m
