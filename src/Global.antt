-- ===== src/Global.antt =====
-- src/global.rs: the global allocators `Alloc64Global` and `MAllocPg64Global`, which answer with a
-- plain pointer, null on failure. `System` and `std::alloc` are the same parameter here.
pub mod Heap64
pub mod Agree
mod Tests
use vec.Base.{ℕ, ◌+◌, ◌-◌, Option, none, some, Bool, not, ◌&&◌, ltb, ◌==◌, if◌then◌else◌}
use vec.Build.{Config}
use vec.PageSize.{uses_mmap, uses_giant_pages, mapped_size}
use vec.Allocator.{Call}
use vec.Machine.{Layout, Mem, Sys, may_move, map_failed, copy}
use vec.Alloc64.{align_layout, ◌>>=◌}
use vec.MmapAlloc.{do_mmap, hint_thp}

-- A pointer and the memory; `none` is a panic.
abbrev pub Pointer : Type 0
Pointer = Option (ℕ × Mem)

-- The answer of an `Allocator` without the length; null is 0.
abbrev pub thin : Call → Pointer
thin none = none
thin (some (none, m)) = some (0, m)
thin (some (some (p, n), m)) = some (p, m)

module _ (c : Config) (s : Sys) where
  -- After `do_mmap`: hint and answer, or null.
  abbrev pub hint_ptr : ℕ → ℕ → Option ℕ × Mem → Pointer
  hint_ptr size mapped (none, m) = some (0, m)
  hint_ptr size mapped (some p, m) = some (p, hint_thp c s p size mapped m)

  pub alloc : Layout → Mem → Pointer
  unfolding align_layout do_mmap hint_thp uses_mmap mapped_size
  alloc layout m =
      let mapped = mapped_size c layout.size in
      if not (uses_mmap c layout.size)
      then align_layout layout >>= (λ l. some (s.alloc l m))
      else hint_ptr layout.size mapped (do_mmap c s layout.size mapped m)

  pub dealloc : ℕ → Layout → Mem → Option Mem
  unfolding align_layout uses_mmap mapped_size
  dealloc ptr layout m =
      if not (uses_mmap c layout.size)
      then align_layout layout >>= (λ l. some (s.dealloc ptr l m))
      else some (s.munmap ptr (mapped_size c layout.size) m)

  pub alloc_zeroed : Layout → Mem → Pointer
  unfolding align_layout do_mmap hint_thp uses_mmap mapped_size
  alloc_zeroed layout m =
      let mapped = mapped_size c layout.size in
      if not (uses_mmap c layout.size)
      then align_layout layout >>= (λ l. some (s.alloc_zeroed l m))
      else hint_ptr layout.size mapped (do_mmap c s layout.size mapped m)

  -- From the heap to a mapping.
  abbrev pub to_mapping : ℕ → Layout → ℕ → ℕ → Option ℕ × Mem → Pointer
  to_mapping ptr layout size mapped (none, m) = some (0, m)
  to_mapping ptr layout size mapped (some q, m) = do
    l ← align_layout layout
    some (q, hint_thp c s q size mapped (s.dealloc ptr l (copy ptr q layout.size m)))

  -- From a mapping to the heap.
  abbrev pub to_heap : ℕ → ℕ → ℕ → ℕ × Mem → Pointer
  to_heap ptr size old_mapped (q, m) =
      if q == 0 then some (0, m) else some (q, s.munmap ptr old_mapped (copy ptr q size m))

  -- Through a fresh mapping.
  abbrev pub through_fresh : ℕ → ℕ → ℕ → ℕ → Option ℕ × Mem → Pointer
  through_fresh ptr old_mapped size mapped (none, m) = some (0, m)
  through_fresh ptr old_mapped size mapped (some q, m) =
      some (q, hint_thp c s q size mapped (s.munmap ptr old_mapped (copy ptr q size m)))

  -- After `mremap`.
  abbrev pub moved : ℕ → ℕ → ℕ × Mem → Pointer
  moved size mapped (raw, m) =
      if raw == map_failed
      then some (0, m)
      else if raw == 0
      then some (0, m)
      else some (raw, hint_thp c s raw size mapped m)

  pub realloc : ℕ → Layout → ℕ → Mem → Pointer
  unfolding align_layout do_mmap hint_thp uses_mmap mapped_size uses_giant_pages
  realloc ptr layout new_size m =
      let old_mmap = uses_mmap c layout.size in
      let new_mmap = uses_mmap c new_size in
      let old_mapped = mapped_size c layout.size in
      let new_mapped = mapped_size c new_size in
      if not old_mmap && not new_mmap
      then align_layout layout >>= (λ l. some (s.realloc ptr l new_size m))
      else if not old_mmap && new_mmap
      then to_mapping ptr layout new_size new_mapped (do_mmap c s new_size new_mapped m)
      else if old_mmap && not new_mmap
      then align_layout (record { size = new_size; align = layout.align })
        >>= (λ l. to_heap ptr new_size old_mapped (s.alloc l m))
      else if old_mapped == new_mapped
      then some (ptr, m)
      else if ltb new_size layout.size
          && uses_giant_pages c layout.size
          && not (uses_giant_pages c new_size)
      then through_fresh ptr old_mapped new_size new_mapped (do_mmap c s new_size new_mapped m)
      else if ltb new_size layout.size
      then some (ptr, s.munmap (ptr + new_mapped) (old_mapped - new_mapped) m)
      else moved new_size new_mapped (s.mremap ptr old_mapped new_mapped may_move m)
