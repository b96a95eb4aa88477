-- ===== src/MmapAlloc/Correct.antt =====
-- `MAllocPg64::grow` and `grow_zeroed` against the contract of `Allocator`.
use vec.Base.{
  ℕ, ◌+◌, ◌≤◌, ◌<◌, ◌≡◌, ◌⊎◌, inl, inr, ◌∙◌, none, some, true, false, within-add, arith, ◌==◌,
  Bool-cases, ==_iff, leb→le, le→leb,
}
use vec.Build.{Config, IsBuilt}
use vec.PageSize.{uses_mmap, mapped_size}
use vec.Machine.{Layout, Mem, Sys, may_move, map_failed}
use vec.Machine.Effect.{Unchanged, IsSys}
use vec.Allocator.{IsLayout, Resized, ZeroedPast, Ends, Call}
use vec.Alloc64.Heap.{heap_holding}
use vec.Alloc64.Correct.{grow-Resized, grow_zeroed-Resized}
use vec.MmapAlloc.{do_mmap, remapped, grow, grow_zeroed, heap_grow, heap_alloc_zeroed, heap_dealloc}
use vec.MmapAlloc.Hybrid.{hybrid, held-owned, still_held, MappedBlock, hybrid-Resized}
use vec.MmapAlloc.Mapping.{do_mmap-Got, mapped-enough}
use vec.MmapAlloc.Fresh.{no_hint, Ends-map}
use vec.MmapAlloc.Remap.{Grown, Resized-before}
use vec.MmapAlloc.Grow.{
  Unchanged-trans, into_mapping-Grown, relocate-Grown, Remapped-Grown, same_pages-Grown,
}
use vec.Alloc64.{hinted, hint_hugepage}
use vec.Alloc64

-- The outcome of a call after one that has changed nothing.
Ends-from :
    {m m1 : Mem} {P Q : ℕ → ℕ → Mem → Type 0} (e : Call)
    → Unchanged m m1
    → ((q n : ℕ) (m2 : Mem) → P q n m2 → Q q n m2)
    → Ends heap_holding m1 P e
    → Ends heap_holding m Q e
Ends-from none un f h = h
Ends-from (some (none, m2)) un f vn = Unchanged-trans un vn
Ends-from (some (some (q, n), m2)) un f h = f q n m2 h

module _ {c : Config} (b : IsBuilt c) {s : Sys} (sys : IsSys s) (small : sys.page_bits ≤ b.bits)
    (gigantic : sys.page_bits ≤ 30) where
  abbrev extent : Layout → ℕ
  extent l = (hybrid c s).extent l

  Grown-before :
      (m m1 : Mem) (p : ℕ) (old new : Layout) (q n : ℕ) (m2 : Mem)
      → (hybrid c s).Holds m p old
      → old.size ≤ extent old
      → Unchanged m m1
      → Grown c s m1 p old new q n m2
      → Grown c s m p old new q n m2
  Grown-before m m1 p old new q n m2 held fits un (re, z) =
      (Resized-before c s p q n old.size old new held un re fits, λ i h g. go i (z i h g))
    where
      go :
          (i : ℕ)
          → (m2.byte (q + i) ≡ 0) ⊎ ((i < extent old) × (m2.byte (q + i) ≡ m1.byte (p + i)))
          → (m2.byte (q + i) ≡ 0) ⊎ ((i < extent old) × (m2.byte (q + i) ≡ m.byte (p + i)))
      go i (inl e) = inl e
      go i (inr (lt, e)) = inr (
        lt,
        e ∙ un.byte (p + i) (held-owned c s m p old (p + i) held (within-add p (extent old) i lt)),
      )

  remapped-Grown :
      (p : ℕ) (old new : Layout) (m : Mem)
      → IsLayout old
      → IsLayout new
      → uses_mmap c old.size ≡ true
      → uses_mmap c new.size ≡ true
      → old.size ≤ new.size
      → s.Ok m
      → (hybrid c s).Holds m p old
      → Ends (hybrid c s) m (Grown c s m p old new) (
          remapped c s p old.size
            (mapped_size c old.size)
            new.size
            (mapped_size c new.size)
            (s.mremap p (mapped_size c old.size) (mapped_size c new.size) may_move m))
  remapped-Grown p old new m vo vn was on le ok held =
      let at : MappedBlock c s m p old = (rw was at held) in
      let big = mapped-enough b sys new vn on in
      let wide = mapped-enough b sys old vo was in
      let m1 = (s.mremap p (mapped_size c old.size) (mapped_size c new.size) may_move m).1 in
      let ok1 = sys.mremap_ok p (mapped_size c old.size) (mapped_size c new.size) may_move m ok in
      let lem = sys.mremap_lem p (mapped_size c old.size) (mapped_size c new.size) m ok at.mapped in
      elim (Bool-cases (
        (s.mremap p (mapped_size c old.size) (mapped_size c new.size) may_move m).0
        == map_failed)) [
          | inl failed ↦
              let un : Unchanged m m1 = (rw failed at lem) in
              let held1 = still_held c s m m1 p old (λ e. un.block p) (λ a h. un.owner a) held in
              rw failed (
                Ends-from _ un
                  (λ q n m2. Grown-before m m1 p old new q n m2 held (rw was wide.0) un)
                  (relocate-Grown b sys p old new m1 vo vn on wide.1 le held1 small gigantic was
                    (do_mmap c s new.size (mapped_size c new.size) m1)
                    (do_mmap-Got b sys new.size (mapped_size c new.size) m1 ok1 (omega arith))))
          | inr fine ↦
              let re = (rw fine at lem) in
              rw (fine, nonzero _ re.nonnull)
                (Remapped-Grown b sys p old new m vo vn on wide.1 le held small gigantic was _ m1
                  re)
        ]
    where
      nonzero : (q : ℕ) → 0 < q → (q == 0) ≡ false
      nonzero q h = ground arith

  -- A larger size is mapped if a smaller one is.
  pub mapped_up : (n k : ℕ) → n ≤ k → uses_mmap c n ≡ true → uses_mmap c k ≡ true
  unfolding uses_mmap
  mapped_up n k le h = le→leb c.huge_page k (omega (arith, leb→le c.huge_page n h))

  -- The paths of `grow` that end in a mapping.
  grow-Grown :
      (p : ℕ) (old new : Layout) (m : Mem)
      → IsLayout old
      → IsLayout new
      → 0 < old.size
      → old.size ≤ new.size
      → uses_mmap c new.size ≡ true
      → s.Ok m
      → (hybrid c s).Holds m p old
      → Ends (hybrid c s) m (Grown c s m p old new) (grow c s p old new m)
  unfolding grow
  grow-Grown p old new m vo vn pos le on ok held = elim (Bool-cases (uses_mmap c old.size)) [
    | inl was ↦ elim (Bool-cases (mapped_size c old.size == mapped_size c new.size)) [
      | inl same ↦
          rw (was, same)
            (same_pages-Grown b sys p old new m vo vn on pos le held small gigantic was
              ((==_iff _ _).0 same))
      | inr differ ↦ rw (was, differ) (remapped-Grown p old new m vo vn was on le ok held)
    ]
    | inr off ↦
        let big = mapped-enough b sys new vn on in
        rw (off, on)
          (into_mapping-Grown b sys p old new m vo vn on pos le held
            (do_mmap c s new.size (mapped_size c new.size) m) off
            (do_mmap-Got b sys new.size (mapped_size c new.size) m ok (omega arith)))
  ]

  -- Where the kernel's page is no larger than `HUGE_PAGE` and 1 GiB, `grow` of a block to a layout
  -- of the same alignment does not panic and gives a block that begins with all old bytes: on the
  -- heap, from the heap to a mapping, and from mapping to mapping, in place, moved by the kernel,
  -- or through a fresh mapping when `mremap` fails. The old bytes that it does not take are free,
  -- and nothing else has changed; on `AllocError` the old block is still there.
  pub grow-hybrid :
      (p : ℕ) (old new : Layout) (m : Mem)
      → IsLayout old
      → IsLayout new
      → new.align ≡ old.align
      → 0 < old.size
      → old.size ≤ new.size
      → s.Ok m
      → (hybrid c s).Holds m p old
      → Ends
          (hybrid c s)
          m
          (λ q n m1. Resized (hybrid c s) m m1 p old q new n old.size)
          (grow c s p old new m)
  unfolding grow heap_grow Alloc64.grow hinted hint_hugepage
  grow-hybrid p old new m vo vn same pos le ok held = elim (Bool-cases (uses_mmap c new.size)) [
    | inl on ↦
        Ends-map m (grow c s p old new m) (λ q n m1 h. h.0)
          (grow-Grown p old new m vo vn pos le on ok held)
    | inr off ↦ elim (Bool-cases (uses_mmap c old.size)) [
      | inl was ↦ absurd (ground (arith, mapped_up old.size new.size le was))
      | inr was_off ↦
          rw (off, was_off)
            (Ends-map m (heap_grow c s p old new m) (λ q n m1 h. hybrid-Resized c s was_off off h)
              (grow-Resized no_hint sys p old new m vo vn same (omega arith) le ok
                (rw was_off at held)))
    ]
  ]

  -- Where the kernel's page is no larger than `HUGE_PAGE` and 1 GiB, `grow_zeroed` gives what
  -- `grow` does, whether or not the layouts have the same alignment, and past the old layout only zeros or bytes
  -- of the old block. The old size is positive. The address is a multiple of 64, and of the kernel's page where the block is mapped;
  -- that it is a multiple of a larger alignment of the new layout is not stated.
  pub grow_zeroed-hybrid :
      (p : ℕ) (old new : Layout) (m : Mem)
      → IsLayout old
      → IsLayout new
      → 0 < old.size
      → old.size ≤ new.size
      → s.Ok m
      → (hybrid c s).Holds m p old
      → Ends (hybrid c s) m (Grown c s m p old new) (grow_zeroed c s p old new m)
  unfolding grow_zeroed heap_alloc_zeroed heap_dealloc Alloc64.grow_zeroed Alloc64.allocate_zeroed
      Alloc64.deallocate hinted hint_hugepage
  grow_zeroed-hybrid p old new m vo vn pos le ok held = elim (Bool-cases (uses_mmap c new.size)) [
    | inl on ↦
        let grown = grow-Grown p old new m vo vn pos le on ok held in
        elim (Bool-cases (uses_mmap c old.size)) [
          | inl was ↦ rw was grown
          | inr was_off ↦ rw (was_off, on) grown
        ]
    | inr off ↦ elim (Bool-cases (uses_mmap c old.size)) [
      | inl was ↦ absurd (ground (arith, mapped_up old.size new.size le was))
      | inr was_off ↦
          rw (off, was_off)
            (Ends-map m
              {P = λ q n m1.
                Resized heap_holding m m1 p old q new n old.size
                × ZeroedPast m m1 p old.size old.size q n}
              {Q = Grown c s m p old new} (Alloc64.grow_zeroed no_hint s p old new m)
              (λ q n m1 h. (hybrid-Resized c s was_off off h.0, (rw was_off h.1)))
              (grow_zeroed-Resized no_hint sys p old new m vo vn pos le ok (rw was_off at held)))
    ]
  ]
