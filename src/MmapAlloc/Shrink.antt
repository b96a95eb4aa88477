-- ===== src/MmapAlloc/Shrink.antt =====
-- `MAllocPg64::shrink`, on every path.
use vec.Base.{
  ℕ, ◌+◌, ◌-◌, ◌≤◌, ◌<◌, ◌≡◌, inl, inr, refl, subst, ◌∙◌, Option, none, some, true, false,
  within-add, arith, ◌==◌, Bool-cases, ==_iff, ◌&&◌, not,
}
use vec.Build.{Config, IsBuilt}
use vec.PageSize.{uses_mmap, mapped_size, uses_giant_pages}
use vec.Machine.{Layout, Mem, Sys, copy}
use vec.Machine.Effect.{copy_ok, Mapped, IsSys}
use vec.Allocator.{IsLayout, Fat, Allocated, Resized, Ends}
use vec.Alloc64.Heap.{heap_holding, raised, align_layout-raised, Unchanged-refl}
use vec.Alloc64.Correct.{shrink-Resized}
use vec.Alloc64.Replace.{within-longer}
use vec.MmapAlloc.{do_mmap, relocate, shrink, heap_shrink, heap_alloc, into_heap}
use vec.MmapAlloc.Hybrid.{
  hybrid, held-owned, still_held, MappedBlock, hybrid-Resized, hybrid-Allocated,
}
use vec.MmapAlloc.Mapping.{
  Got, do_mmap-Got, mapped-enough, mapped-whole, page-aligned, hint_thp-Unchanged, Mapped-Allocated,
}
use vec.MmapAlloc.Fresh.{no_hint, Ends-map, heap_alloc-Allocated}
use vec.MmapAlloc.Relocate.{Relocated-Resized}
use vec.MmapAlloc.Grow.{finish}
use vec.MmapAlloc.Fewer.{mapped-fewer}
use vec.MmapAlloc.Tail.{
  sum-whole, diff-whole, tail-within, tail-within_old, tail-within_new, tail-outside,
}
use vec.Alloc64.{hinted, hint_hugepage, ◌>>=◌, fat}
use vec.Alloc64

module _ {c : Config} (b : IsBuilt c) {s : Sys} (sys : IsSys s) (small : sys.page_bits ≤ b.bits)
    (gigantic : sys.page_bits ≤ 30) (p : ℕ) (old new : Layout) (m : Mem) (vo : IsLayout old)
    (vn : IsLayout new) (pos : 0 < new.size) (le : new.size ≤ old.size) (ok : s.Ok m)
    (held : (hybrid c s).Holds m p old) where
  -- What `shrink` promises.
  abbrev Shrunk : ℕ → ℕ → Mem → Type 0
  Shrunk q n m1 = Resized (hybrid c s) m m1 p old q new n new.size

  -- From a mapping to the heap.
  into_heap-Shrunk :
      uses_mmap c old.size ≡ true
      → uses_mmap c new.size ≡ false
      → (e : Fat × Mem) → s.Ok e.1
      → Ends heap_holding m (λ q n m2. Allocated heap_holding m m2 new q n) (some e)
      → Ends (hybrid c s) m Shrunk (into_heap c s p new.size (mapped_size c old.size) e)
  into_heap-Shrunk was off (none, m2) ok2 un = un
  into_heap-Shrunk was off (some (q, n), m2) ok2 al =
      let wide = mapped-enough b sys old vo was in
      let got = hybrid-Allocated c s off al in
      let at : MappedBlock c s m2 p old = (rw was at (got.others p old wide.1 held)) in
      let (gone, blocks) =
        sys.munmap_lem p (mapped_size c old.size) (copy p q new.size m2)
          (copy_ok sys p q new.size m2 ok2 (λ a h. held-owned c s m2 q new a got.held (rw off h)))
          at.whole (mapped-whole b sys small gigantic old vo was) at.mapped in
      Relocated-Resized c s new.size old new held got (rw was gone) (rw was (omega arith))
        (rw off pos) (rw was (omega arith)) (rw off (omega arith)) (λ r ne. blocks r)

  heap_alloc-fat :
      heap_alloc c s new m
      ≡ some (fat ((s.alloc (raised new) m).0) new.size ((s.alloc (raised new) m).1))
  unfolding heap_alloc
  heap_alloc-fat = rw (align_layout-raised vn)

  fat_ok : (q n : ℕ) (m2 : Mem) → s.Ok m2 → s.Ok (fat q n m2).1
  fat_ok q n m2 h = elim (Bool-cases (q == 0)) [ inl null ↦ rw null h | inr fine ↦ rw fine h ]

  module _ (was : uses_mmap c old.size ≡ true) (on : uses_mmap c new.size ≡ true) where
    -- The pages are the same.
    same_pages-Shrunk :
        mapped_size c old.size ≡ mapped_size c new.size → Shrunk p (mapped_size c new.size) m
    same_pages-Shrunk e =
        let big = mapped-enough b sys new vn on in
        let at : MappedBlock c s m p old = (rw was at held) in
        record {
          aligned = page-aligned b sys p at.whole;
          enough = big.0;
          within_extent = rw on (omega arith);
          held = rw on (record { mapped = (rw e at at.mapped); whole = at.whole });
          kept = λ i h. refl;
          released = rw (was, on, e) (λ a h g. absurd (ground arith));
          owners = λ a h g. refl;
          disjoint = rw (was, on, e) (λ a h. inr h);
          bytes = λ a h g. refl;
          others = λ r x big ne away h. h;
        }

    -- Through a fresh mapping.
    relocate-Shrunk :
        mapped_size c new.size ≤ mapped_size c old.size
        → (o : Option ℕ × Mem)
        → Got m (λ q m1. Mapped s.page_size m m1 q (mapped_size c new.size) × s.Ok m1) o
        → Ends
            (hybrid c s)
            m
            Shrunk
            (relocate c s p new.size (mapped_size c old.size) new.size (mapped_size c new.size) o)
    relocate-Shrunk fits (none, m2) un = un
    relocate-Shrunk fits (some q, m2) (map, ok2) =
        let big = mapped-enough b sys new vn on in
        let wide = mapped-enough b sys old vo was in
        let got = Mapped-Allocated b sys new q vn on map (Unchanged-refl m2) in
        let at : MappedBlock c s m2 p old = (rw was at (got.0.others p old wide.1 held)) in
        let (gone, blocks) =
          sys.munmap_lem p (mapped_size c old.size) (copy p q new.size m2)
            (copy_ok sys p q new.size m2 ok2 (λ a h.
              held-owned c s m2 q new a got.0.held
                (rw on (within-longer q new.size (mapped_size c new.size) a big.0 h))))
            at.whole (mapped-whole b sys small gigantic old vo was) at.mapped in
        (finish b sys p q new.size old new on held got (rw was gone) (λ r ne. blocks r)
          (hint_thp-Unchanged b sys q new.size (mapped_size c new.size) _) (rw was (omega arith))
          (omega arith) (rw was (omega arith)) big.0).0

    -- The tail pages are released.
    tail-Shrunk :
        mapped_size c new.size < mapped_size c old.size
        → Shrunk p (mapped_size c new.size) (
            s.munmap
              (p + mapped_size c new.size)
              (mapped_size c old.size - mapped_size c new.size)
              m)
    tail-Shrunk fits =
        let k = mapped_size c new.size in
        let big = mapped-enough b sys new vn on in
        let at : MappedBlock c s m p old = (rw was at held) in
        let rest = mapped_size c old.size - k in
        let page_new = mapped-whole b sys small gigantic new vn on in
        let page_old = mapped-whole b sys small gigantic old vo was in
        let (gone, blocks) =
          sys.munmap_lem (p + k) rest m ok (sum-whole s.page_size p k at.whole page_new)
            (diff-whole s.page_size (mapped_size c old.size) k page_old page_new)
            (λ a h. at.mapped a (tail-within_old p k (mapped_size c old.size) a fits h)) in
        record {
          aligned = page-aligned b sys p at.whole;
          enough = big.0;
          within_extent = rw on (omega arith);
          held = rw on (record {
            mapped = λ a h.
                gone.owner a
                ∙ rw (tail-within_new p k (mapped_size c old.size) a h)
                    (at.mapped a (within-longer p k (mapped_size c old.size) a (omega arith) h));
            whole = at.whole;
          });
          kept = λ i h.
              gone.byte (p + i)
                (held-owned c s m p old (p + i) held
                  (rw was (within-add p (mapped_size c old.size) i (omega arith))))
                (tail-within_new p k (mapped_size c old.size) (p + i)
                  (within-add p k i (omega arith)));
          released =
              rw (was, on)
                (λ a h g. gone.owner a ∙ rw (tail-within p k (mapped_size c old.size) a fits h g));
          owners =
              rw (was, on)
                (λ a h g. gone.owner a ∙ rw (tail-outside p k (mapped_size c old.size) a fits h));
          disjoint =
              rw (was, on)
                (λ a h. inr (within-longer p k (mapped_size c old.size) a (omega arith) h));
          bytes =
              rw was (λ a h g. gone.byte a h (tail-outside p k (mapped_size c old.size) a fits g));
          others = λ r x big ne away h.
              still_held c s m (s.munmap (p + k) rest m) r x (λ e. blocks r)
                (λ a g.
                  gone.owner a
                  ∙ rw (tail-outside p k (mapped_size c old.size) a fits ((rw was at away a) g)))
                h;
        }

    fewer : mapped_size c new.size ≤ mapped_size c old.size
    fewer = mapped-fewer b sys old new vo vn pos le was on

    mapped-Shrunk : Ends (hybrid c s) m Shrunk (shrink c s p old new m)
    unfolding shrink
    mapped-Shrunk = elim (Bool-cases (mapped_size c old.size == mapped_size c new.size)) [
      | inl same ↦ rw (was, on, same) (same_pages-Shrunk ((==_iff _ _).0 same))
      | inr differ ↦
          elim (Bool-cases (uses_giant_pages c old.size && not (uses_giant_pages c new.size))) [
            | inl down ↦
                rw (was, on, differ, down)
                  (relocate-Shrunk fewer (do_mmap c s new.size (mapped_size c new.size) m) (
                    do_mmap-Got b sys new.size (mapped_size c new.size) m ok
                      (omega (arith, (mapped-enough b sys new vn on).0))))
            | inr tail ↦ rw (was, on, differ, tail) (tail-Shrunk (ground (arith, fewer)))
          ]
    ]

  -- Where the kernel's page is no larger than `HUGE_PAGE` and 1 GiB, `shrink` of a block to a
  -- layout of the same alignment does not panic and keeps the bytes that fit, where the new size is positive, on every path: on
  -- the heap, from a mapping to the heap, in place with the tail pages released, or through a fresh
  -- mapping when the pages are no longer gigantic. What the new block does not take of the old one
  -- is free, and nothing else has changed; on `AllocError` the old block is still there.
  pub shrink-hybrid :
      new.align ≡ old.align
      → Ends
          (hybrid c s)
          m
          (λ q n m1. Resized (hybrid c s) m m1 p old q new n new.size)
          (shrink c s p old new m)
  unfolding shrink heap_shrink Alloc64.shrink uses_mmap
  shrink-hybrid same = elim (Bool-cases (uses_mmap c old.size)) [
    | inl was ↦ elim (Bool-cases (uses_mmap c new.size)) [
      | inl on ↦ mapped-Shrunk was on
      | inr off ↦
          rw (was, off, heap_alloc-fat)
            (into_heap-Shrunk was off _ (fat_ok _ _ _ (sys.alloc_ok (raised new) m ok)) (
              subst (λ e. Ends heap_holding m (λ q n m1. Allocated heap_holding m m1 new q n) e)
                heap_alloc-fat (heap_alloc-Allocated b sys new m vn pos ok)))
    ]
    | inr was_off ↦
        rw (was_off, off was_off)
          (Ends-map m (heap_shrink c s p old new m)
            (λ q n m1 h. hybrid-Resized c s was_off (off was_off) h)
            (shrink-Resized no_hint sys p old new m vo vn same pos le ok (rw was_off at held)))
  ]
    where
      off : uses_mmap c old.size ≡ false → uses_mmap c new.size ≡ false
      off h = ground (arith, le)
