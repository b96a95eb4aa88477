-- ===== src/Vec64/Splice.antt =====
-- src/vec64.rs: `delete_range` and `try_mremap_splice`, which moves the tail by moving its pages.
pub mod Kept
pub mod Pages
pub mod Copies
pub mod Moves
pub mod Shift
pub mod Deletes
pub mod Correct
mod Tests
use vec.Base.{
  ℕ, ◌+◌, ◌-◌, ◌*◌, ◌%◌, min, Option, none, some, Bool, true, false, not, ◌&&◌, ◌||◌, bit_and, leb,
  ltb, ◌==◌, if◌then◌else◌,
}
use vec.Base.Usize.{usize_add, usize_sub}
use vec.Base.Outcome.{Outcome, done, panic, ◌>>=◌}
use vec.Build.{Config}
use vec.Build.Pow2.{is_power_of_two}
use vec.PageSize.{round_to, uses_mmap}
use vec.Machine.{Mem, Sys, anonymous, fixed, fixed_dont_unmap, lazy_free, map_failed, copy}
use vec.Vec64.Raw.{RawVec, next_multiple_of, copy_nonoverlapping, Deleted, truncate, drain, indices}

-- The deletion in bytes: what of the vector at `base` goes, and how many bytes there are before and
-- after.
pub record Span : Type 0 where
  pub base : ℕ
  pub byte_start : ℕ
  pub byte_end : ℕ
  pub byte_len : ℕ
  pub new_bytes : ℕ  -- `new_len * elem`

-- What is left to move after the patch of the boundary page, in whole pages.
pub record Tail : Type 0 where
  pub src : ℕ
  pub dst : ℕ
  pub bytes : ℕ
  pub pages : ℕ  -- `tail_mapped`, in bytes

module _ (s : Sys) where
  -- Hand the pages past the new length back to the kernel.
  pub release : Span → Mem → Mem
  release d m =
      let used = next_multiple_of d.new_bytes s.page_size in
      let mapped_end = next_multiple_of d.byte_len s.page_size in
      if ltb used mapped_end then s.madvise (d.base + used) (mapped_end - used) lazy_free m else m

  pub seam : Span → ℕ
  seam d = next_multiple_of d.byte_start s.page_size - d.byte_start

  pub tail_of : Span → Tail
  tail_of d =
      let splice_src = d.byte_end + seam d in
      let bytes = d.byte_len - splice_src in
      record {
        src = d.base + splice_src;
        dst = d.base + (d.byte_start + seam d);
        bytes = bytes;
        pages = round_to s.page_size bytes;
      }

  -- Copy from the scratch mapping and release it.
  abbrev pub copy_back : Tail → ℕ → Mem → Outcome Mem
  copy_back t scratch m = do
    m1 ← copy_nonoverlapping scratch t.dst t.bytes m
    done (s.munmap scratch t.pages m1)

  -- The end of step 3.
  abbrev pub placed : Span → Tail → ℕ → ℕ × Mem → Outcome Mem
  placed d t scratch (r, m) = if r == map_failed then copy_back t scratch m else done (release d m)

  -- Step 3: from the scratch mapping to the final position.
  pub step3 : Span → Tail → ℕ → Mem → Outcome Mem
  step3 d t scratch m =
      let scratch_hi = usize_add scratch t.pages in
      let dst_hi = usize_add t.dst t.pages in
      if ltb scratch dst_hi && ltb t.dst scratch_hi
      then copy_back t scratch m
      else placed d t scratch (s.mremap scratch t.pages t.pages (fixed t.dst) m)

  -- Step 2: the tail into the scratch mapping. Where that fails, copy in place.
  abbrev pub taken : Span → Tail → ℕ → ℕ × Mem → Outcome Mem
  taken d t scratch (r, m) =
      if r == map_failed
      then done (copy t.src t.dst t.bytes (s.munmap scratch t.pages m))
      else step3 d t scratch m

  pub step2 : Span → Tail → ℕ → Mem → Outcome Mem
  step2 d t scratch m =
      taken d t scratch (s.mremap t.src t.pages t.pages (fixed_dont_unmap scratch) m)

  -- Step 1: a scratch mapping. Where there is none, copy in place.
  abbrev pub reserved : Span → Tail → ℕ × Mem → Outcome Mem
  reserved d t (scratch, m) =
      if scratch == map_failed then done (copy t.src t.dst t.bytes m) else step2 d t scratch m

  pub step1 : Span → Tail → Mem → Outcome Mem
  step1 d t m = reserved d t (s.mmap anonymous t.pages m)

  -- The patch of the boundary page, and the rest of the tail unless the patch has it all.
  pub shift_tail : Span → Mem → Outcome Mem
  shift_tail d m =
      let tail_total = d.byte_len - d.byte_end in
      if ltb 0 (seam d)
      then (do
        m1 ←
            copy_nonoverlapping (d.base + d.byte_end) (d.base + d.byte_start)
              (min (seam d) tail_total) m
        if leb tail_total (seam d) then done (release d m1) else step1 d (tail_of d) m1)
      else step1 d (tail_of d) m

abbrev pub span_of : ℕ → RawVec → ℕ → ℕ → Span
span_of elem v start end = record {
  base = v.ptr;
  byte_start = start * elem;
  byte_end = end * elem;
  byte_len = v.len * elem;
  new_bytes = (start + (v.len - end)) * elem;
}

-- The fallback.
abbrev pub or_drain : ℕ → RawVec → ℕ → ℕ → Mem → Option Deleted → Outcome Deleted
or_drain elem v start end m none = done (drain elem v start end m)
or_drain elem v start end m (some r) = done r

module _ (c : Config) (s : Sys) (elem : ℕ) where
  -- `none` is `false`: nothing was done. The other answer has dropped the elements first.
  pub try_mremap_splice : RawVec → ℕ → ℕ → Mem → Outcome (Option Deleted)
  try_mremap_splice v start end m =
      let page = s.page_size in
      let d = span_of elem v start end in
      if page == 0 || not (is_power_of_two page)
      then done none
      else if elem == 0
      then done none
      else if not (bit_and (d.byte_end - d.byte_start) (usize_sub page 1) == 0)
      then done none
      else if not (uses_mmap c (v.cap * elem))
      then done none
      else (do
        m1 ← shift_tail s d m
        done (
            some (record {
              vec = record v { len = start + (v.len - end) };
              mem = m1;
              dropped = indices start (end - start);
            })))

  pub delete_range : RawVec → ℕ → ℕ → Mem → Outcome Deleted
  delete_range v start end m =
      if not (leb start end)
      then panic
      else if not (leb end v.len)
      then panic
      else if start == end
      then done (record { vec = v; mem = m; dropped = indices start 0 })
      else if end == v.len
      then done (truncate v start m)
      else if c.mmap
      then try_mremap_splice v start end m >>= or_drain elem v start end m
      else done (drain elem v start end m)
