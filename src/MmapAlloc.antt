-- ===== src/MmapAlloc.antt =====
-- src/mmap_alloc.rs: `MAllocPg64`, which takes small blocks from the heap and maps large ones.
pub mod Hybrid
pub mod Mapping
pub mod Fresh
pub mod Relocate
pub mod Remap
pub mod Grow
pub mod Correct
pub mod Tail
pub mod Fewer
pub mod Shrink
mod Tests
use vec.Base.{
  ℕ, ◌+◌, ◌-◌, Option, none, some, Bool, true, false, not, ◌&&◌, ◌==◌, if◌then◌else◌, leb,
}
use vec.Build.{Config}
use vec.PageSize.{gigantic_page, uses_mmap, uses_giant_pages, mapped_size}
use vec.Allocator.{Fat, Call}
use vec.Machine.{
  Layout, Mem, Sys, MapFlags, anonymous, anonymous_1gb, may_move, huge_page, map_failed, copy,
}
use vec.Alloc64.{align_layout, fat, ◌>>=◌}

module _ (c : Config) (s : Sys) where
  abbrev pub flags : ℕ → MapFlags
  flags original = if c.giant_pages && leb gigantic_page original then anonymous_1gb else anonymous

  -- `None` is `AllocError`: of the kernel, or a null pointer.
  abbrev mapped_ptr : ℕ × Mem → Option ℕ × Mem
  mapped_ptr (ptr, m) =
      if ptr == map_failed then (none, m) else if ptr == 0 then (none, m) else (some ptr, m)

  unfoldable pub do_mmap : ℕ → ℕ → Mem → Option ℕ × Mem
  do_mmap original mapped m = mapped_ptr (s.mmap (flags original) mapped m)

  unfoldable pub hint_thp : ℕ → ℕ → ℕ → Mem → Mem
  unfolding uses_giant_pages
  hint_thp ptr original mapped m =
      if uses_giant_pages c original then m else s.madvise ptr mapped huge_page m

  unfoldable pub heap_alloc : Layout → Mem → Call
  unfolding align_layout
  heap_alloc layout m = do
    l ← align_layout layout
    let (ptr, m') = s.alloc l m
    some (fat ptr l.size m')

  unfoldable pub heap_alloc_zeroed : Layout → Mem → Call
  unfolding align_layout
  heap_alloc_zeroed layout m = do
    l ← align_layout layout
    let (ptr, m') = s.alloc_zeroed l m
    some (fat ptr l.size m')

  unfoldable pub heap_dealloc : ℕ → Layout → Mem → Option Mem
  unfolding align_layout
  heap_dealloc ptr layout m = do l ← align_layout layout; some (s.dealloc ptr l m)

  unfoldable pub heap_grow : ℕ → Layout → Layout → Mem → Call
  unfolding align_layout
  heap_grow ptr old new m = do
    new ← align_layout new
    old ← align_layout old
    let (raw, m') = s.realloc ptr old new.size m
    some (fat raw new.size m')

  unfoldable pub heap_shrink : ℕ → Layout → Layout → Mem → Call
  unfolding align_layout
  heap_shrink ptr old new m = do
    new ← align_layout new
    old ← align_layout old
    let (raw, m') = s.realloc ptr old new.size m
    some (fat raw new.size m')

  -- After `do_mmap(..)?`: hint, and the block of `mapped` bytes.
  abbrev pub hint_fat : ℕ → ℕ → Option ℕ × Mem → Call
  hint_fat size mapped (none, m) = some (none, m)
  hint_fat size mapped (some ptr, m) = some (some (ptr, mapped), hint_thp ptr size mapped m)

  unfoldable pub map_new : Layout → Mem → Call
  unfolding do_mmap hint_thp
  map_new layout m =
      let mapped = mapped_size c layout.size in
      hint_fat layout.size mapped (do_mmap layout.size mapped m)

  unfoldable pub allocate : Layout → Mem → Call
  unfolding heap_alloc map_new uses_mmap mapped_size
  allocate layout m =
      if not (uses_mmap c layout.size) then heap_alloc layout m else map_new layout m

  unfoldable pub allocate_zeroed : Layout → Mem → Call
  unfolding heap_alloc_zeroed allocate uses_mmap
  allocate_zeroed layout m =
      if not (uses_mmap c layout.size) then heap_alloc_zeroed layout m else allocate layout m

  unfoldable pub deallocate : ℕ → Layout → Mem → Option Mem
  unfolding heap_dealloc uses_mmap mapped_size
  deallocate ptr layout m =
      if not (uses_mmap c layout.size)
      then heap_dealloc ptr layout m
      else some (s.munmap ptr (mapped_size c layout.size) m)

  -- Heap to mmap: after `do_mmap(..)?`, copy, free the heap block, hint.
  abbrev pub into_mapping : ℕ → Layout → ℕ → ℕ → Option ℕ × Mem → Call
  into_mapping ptr old size mapped (none, m) = some (none, m)
  into_mapping ptr old size mapped (some q, m) = do
    m' ← heap_dealloc ptr old (copy ptr q old.size m)
    some (some (q, mapped), hint_thp q size mapped m')

  -- Copy `n` bytes through a fresh mapping, after `do_mmap(..)?`.
  abbrev pub relocate : ℕ → ℕ → ℕ → ℕ → ℕ → Option ℕ × Mem → Call
  relocate ptr n old_mapped size mapped (none, m) = some (none, m)
  relocate ptr n old_mapped size mapped (some q, m) =
      some (some (q, mapped), hint_thp q size mapped (s.munmap ptr old_mapped (copy ptr q n m)))

  -- After `mremap`; `NonNull::new(raw).ok_or(AllocError)` is the last test.
  abbrev pub remapped : ℕ → ℕ → ℕ → ℕ → ℕ → ℕ × Mem → Call
  remapped ptr n old_mapped size mapped (raw, m) =
      if raw == map_failed
      then relocate ptr n old_mapped size mapped (do_mmap size mapped m)
      else if raw == 0
      then some (none, m)
      else some (some (raw, mapped), hint_thp raw size mapped m)

  unfoldable pub grow : ℕ → Layout → Layout → Mem → Call
  unfolding heap_grow heap_dealloc do_mmap hint_thp uses_mmap mapped_size
  grow ptr old new m =
      let old_mmap = uses_mmap c old.size in
      let new_mmap = uses_mmap c new.size in
      let old_mapped = mapped_size c old.size in
      let new_mapped = mapped_size c new.size in
      if not old_mmap && not new_mmap
      then heap_grow ptr old new m
      else if not old_mmap && new_mmap
      then into_mapping ptr old new.size new_mapped (do_mmap new.size new_mapped m)
      else if old_mapped == new_mapped
      then some (some (ptr, new_mapped), m)
      else remapped ptr old.size old_mapped new.size new_mapped
          (s.mremap ptr old_mapped new_mapped may_move m)

  -- Heap to heap, after `heap_alloc_zeroed(new)?`.
  abbrev pub replace : ℕ → Layout → Fat × Mem → Call
  replace ptr old (none, m) = some (none, m)
  replace ptr old (some (q, n), m) = do
    m' ← heap_dealloc ptr old (copy ptr q old.size m)
    some (some (q, n), m')

  unfoldable pub grow_zeroed : ℕ → Layout → Layout → Mem → Call
  unfolding heap_alloc_zeroed heap_dealloc uses_mmap
  grow_zeroed ptr old new m =
      if not (uses_mmap c old.size) && not (uses_mmap c new.size)
      then heap_alloc_zeroed new m >>= replace ptr old
      else grow ptr old new m

  -- Mmap to heap, after `heap_alloc(new)?`.
  abbrev pub into_heap : ℕ → ℕ → ℕ → Fat × Mem → Call
  into_heap ptr n old_mapped (none, m) = some (none, m)
  into_heap ptr n old_mapped (some b, m) = some (some b, s.munmap ptr old_mapped (copy ptr b.0 n m))

  unfoldable pub shrink : ℕ → Layout → Layout → Mem → Call
  unfolding heap_shrink heap_alloc do_mmap hint_thp uses_mmap mapped_size uses_giant_pages
  shrink ptr old new m =
      let old_mmap = uses_mmap c old.size in
      let new_mmap = uses_mmap c new.size in
      let old_mapped = mapped_size c old.size in
      let new_mapped = mapped_size c new.size in
      if not old_mmap && not new_mmap
      then heap_shrink ptr old new m
      else if old_mmap && not new_mmap
      then heap_alloc new m >>= into_heap ptr new.size old_mapped
      else if old_mapped == new_mapped
      then some (some (ptr, new_mapped), m)
      else if uses_giant_pages c old.size && not (uses_giant_pages c new.size)
      then relocate ptr new.size old_mapped new.size new_mapped (do_mmap new.size new_mapped m)
      else some (some (ptr, new_mapped), s.munmap (ptr + new_mapped) (old_mapped - new_mapped) m)
