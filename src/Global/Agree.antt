-- ===== src/Global/Agree.antt =====
-- The answers of the global allocators beside those of the crate's allocators without the length.
use vec.Base.{
  Bool, if◌then◌else◌, ℕ, ◌≤◌, ◌<◌, ◌≡◌, refl, sym, ap, Option, none, some, true, false, arith,
  Bool-cases, inl, inr, ◌==◌, ==_iff, ◌&&◌, not, le→ltb, lt→ltb,
}
use vec.Build.{Config}
use vec.PageSize.{uses_mmap, mapped_size, uses_giant_pages}
use vec.Allocator.{IsLayout}
use vec.Machine.{Layout, Mem, Sys, may_move, map_failed}
use vec.Alloc64
use vec.Alloc64.{align_layout, fat, ◌>>=◌, hinted, hint_hugepage}
use vec.Global.Heap64
use vec.Alloc64.Heap.{align_layout-raised}
use vec.MmapAlloc.{
  do_mmap, allocate, allocate_zeroed, deallocate, grow, shrink, heap_alloc, heap_alloc_zeroed,
  heap_dealloc, heap_grow, heap_shrink, map_new, hint_fat, into_mapping, relocate, remapped,
  into_heap,
}
use vec.Global.{
  thin, hint_ptr, alloc, dealloc, alloc_zeroed, realloc, to_mapping, to_heap, through_fresh, moved,
}

thin-fat : (p n : ℕ) (m : Mem) → thin (some (fat p n m)) ≡ some (p, m)
thin-fat p n m = elim (Bool-cases (p == 0)) [
  | inl null ↦ rw null (ap (λ q. some (q, m)) (sym ((==_iff p 0).0 null)))
  | inr fine ↦ rw fine
]

module _ (c : Config) (s : Sys) where
  thin-hint :
      (size mapped : ℕ) (o : Option ℕ × Mem)
      → thin (hint_fat c s size mapped o) ≡ hint_ptr c s size mapped o
  thin-hint size mapped (none, m) = refl
  thin-hint size mapped (some p, m) = refl

  -- `MAllocPg64Global::alloc` answers as `MAllocPg64::allocate` does.
  pub alloc-allocate : (l : Layout) (m : Mem) → IsLayout l → alloc c s l m ≡ thin (allocate c s l m)
  unfolding alloc allocate heap_alloc map_new
  alloc-allocate l m v = elim (Bool-cases (uses_mmap c l.size)) [
    | inl on ↦ rw on (
        sym (thin-hint l.size (mapped_size c l.size) (do_mmap c s l.size (mapped_size c l.size) m)))
    | inr off ↦ rw (off, align_layout-raised v) (sym (thin-fat _ _ _))
  ]

  -- `MAllocPg64Global::alloc_zeroed` answers as `MAllocPg64::allocate_zeroed` does.
  pub alloc_zeroed-allocate_zeroed :
      (l : Layout) (m : Mem) → IsLayout l → alloc_zeroed c s l m ≡ thin (allocate_zeroed c s l m)
  unfolding alloc_zeroed allocate_zeroed allocate heap_alloc_zeroed map_new
  alloc_zeroed-allocate_zeroed l m v = elim (Bool-cases (uses_mmap c l.size)) [
    | inl on ↦ rw on (
        sym (thin-hint l.size (mapped_size c l.size) (do_mmap c s l.size (mapped_size c l.size) m)))
    | inr off ↦ rw (off, align_layout-raised v) (sym (thin-fat _ _ _))
  ]

  -- `MAllocPg64Global::dealloc` does what `MAllocPg64::deallocate` does.
  pub dealloc-deallocate : (p : ℕ) (l : Layout) (m : Mem) → dealloc c s p l m ≡ deallocate c s p l m
  unfolding dealloc deallocate heap_dealloc
  dealloc-deallocate p l m = refl

  -- Both sizes are mapped, to different sizes, and the kernel does not move the mapping.
  abbrev pub refused : ℕ → Layout → Layout → Mem → Bool
  refused p old new m =
      uses_mmap c old.size
      && not (mapped_size c old.size == mapped_size c new.size)
      && (s.mremap p (mapped_size c old.size) (mapped_size c new.size) may_move m).0 == map_failed

  module _ (p : ℕ) (old new : Layout) (m : Mem) (vo : IsLayout old) (vn : IsLayout new) where
    thin-into_mapping :
        (o : Option ℕ × Mem)
        → to_mapping c s p old new.size (mapped_size c new.size) o
          ≡ thin (into_mapping c s p old new.size (mapped_size c new.size) o)
    unfolding heap_dealloc
    thin-into_mapping (none, m1) = refl
    thin-into_mapping (some q, m1) = rw (align_layout-raised vo)

    thin-relocate :
        (o : Option ℕ × Mem)
        → through_fresh c s p (mapped_size c old.size) new.size (mapped_size c new.size) o
          ≡ thin
              (relocate c s p new.size (mapped_size c old.size) new.size (mapped_size c new.size) o)
    thin-relocate (none, m1) = refl
    thin-relocate (some q, m1) = refl

    thin-into_heap :
        (a : ℕ × Mem)
        → to_heap c s p new.size (mapped_size c old.size) a
          ≡ thin (into_heap c s p new.size (mapped_size c old.size) (fat a.0 new.size a.1))
    thin-into_heap (q, m1) = elim (Bool-cases (q == 0)) [ inl null ↦ rw null | inr fine ↦ rw fine ]

    thin-remapped :
        (a : ℕ × Mem)
        → moved c s new.size (mapped_size c new.size) a ≡ (
            if a.0 == map_failed
            then some (0, a.1)
            else thin (
                remapped c s p old.size
                  (mapped_size c old.size)
                  new.size
                  (mapped_size c new.size)
                  a))
    thin-remapped (q, m1) = elim (Bool-cases (q == map_failed)) [
      | inl fails ↦ rw fails
      | inr moves ↦ elim (Bool-cases (q == 0)) [
        | inl null ↦ rw (moves, null)
        | inr fine ↦ rw (moves, fine)
      ]
    ]

    -- To a smaller size, `MAllocPg64Global::realloc` answers as `MAllocPg64::shrink` to a layout of
    -- that size and the same alignment.
    pub realloc-shrink :
        new.align ≡ old.align
        → new.size < old.size
        → realloc c s p old new.size m ≡ thin (shrink c s p old new m)
    unfolding realloc shrink heap_shrink heap_alloc uses_mmap
    realloc-shrink same lt = elim (Bool-cases (uses_mmap c old.size)) [
      | inl was ↦ elim (Bool-cases (uses_mmap c new.size)) [
        | inl on ↦ elim (Bool-cases (mapped_size c old.size == mapped_size c new.size)) [
          | inl eq ↦ rw (was, on, eq)
          | inr ne ↦
              elim (Bool-cases (uses_giant_pages c old.size && not (uses_giant_pages c new.size))) [
                | inl down ↦
                    rw (was, on, ne, lt→ltb _ _ lt, down)
                      (thin-relocate (do_mmap c s new.size (mapped_size c new.size) m))
                | inr tail ↦ rw (was, on, ne, lt→ltb _ _ lt, tail)
              ]
        ]
        | inr off ↦ rw (was, off, ← same, align_layout-raised vn) (thin-into_heap _)
      ]
      | inr off ↦
          rw (off, small off, align_layout-raised vo, align_layout-raised vn) (sym (thin-fat _ _ _))
    ]
      where
        small : uses_mmap c old.size ≡ false → uses_mmap c new.size ≡ false
        small h = ground (arith, lt)

    -- To a size that is no smaller, `MAllocPg64Global::realloc` answers as `MAllocPg64::grow` to a
    -- layout of that size, unless both are mapped, to different sizes, and `mremap` fails: then it answers null after
    -- that one call, where `grow` goes on.
    pub realloc-grow :
        old.size ≤ new.size
        → realloc c s p old new.size m ≡ (
            if refused p old new m
            then some
                (0, (s.mremap p (mapped_size c old.size) (mapped_size c new.size) may_move m).1)
            else thin (grow c s p old new m))
    unfolding realloc grow heap_grow uses_mmap
    realloc-grow le = elim (Bool-cases (uses_mmap c old.size)) [
      | inl was ↦ elim (Bool-cases (mapped_size c old.size == mapped_size c new.size)) [
        | inl eq ↦ rw (was, large was, eq)
        | inr ne ↦
            rw (was, large was, ne, le→ltb _ _ le)
              (thin-remapped
                (s.mremap p (mapped_size c old.size) (mapped_size c new.size) may_move m))
      ]
      | inr off ↦ elim (Bool-cases (uses_mmap c new.size)) [
        | inl on ↦
            rw (off, on) (thin-into_mapping (do_mmap c s new.size (mapped_size c new.size) m))
        | inr small ↦
            rw (off, small, align_layout-raised vo, align_layout-raised vn) (sym (thin-fat _ _ _))
      ]
    ]
      where
        large : uses_mmap c old.size ≡ true → uses_mmap c new.size ≡ true
        large h = ground (arith, le)

  -- Without the hint of `thp`, `Alloc64Global` answers as `Alloc64` does: to a layout, and to a new
  -- size as `grow` and `shrink` do to a layout of that size.
  pub Heap64-Alloc64 :
      (p : ℕ) (old new : Layout) (m : Mem)
      → c.thp ≡ false
      → IsLayout old
      → IsLayout new
      → (Heap64.alloc s old m ≡ thin (Alloc64.allocate c s old m))
        × (Heap64.alloc_zeroed s old m ≡ thin (Alloc64.allocate_zeroed c s old m))
        × (Heap64.dealloc s p old m ≡ Alloc64.deallocate c s p old m)
        × (Heap64.realloc s p old new.size m ≡ thin (Alloc64.grow c s p old new m))
        × (Heap64.realloc s p old new.size m ≡ thin (Alloc64.shrink c s p old new m))
  unfolding Heap64.alloc Heap64.alloc_zeroed Heap64.dealloc Heap64.realloc Alloc64.allocate
      Alloc64.allocate_zeroed Alloc64.deallocate Alloc64.grow Alloc64.shrink hinted hint_hugepage
  Heap64-Alloc64 p old new m off vo vn = (
    rw (align_layout-raised vo, off) (sym (thin-fat _ _ _)),
    rw (align_layout-raised vo, off) (sym (thin-fat _ _ _)),
    rw (align_layout-raised vo),
    rw (align_layout-raised vo, align_layout-raised vn, off) (sym (thin-fat _ _ _)),
    rw (align_layout-raised vo, align_layout-raised vn) (sym (thin-fat _ _ _)),
  )
