-- ===== src/MmapAlloc/Grow.antt =====
-- `grow` and `grow_zeroed` on the paths that end in a mapping.
use vec.Base.{
  ℕ, ◌+◌, ◌≤◌, ◌<◌, ◌≡◌, ◌≢◌, inl, inr, refl, sym, ◌∙◌, Option, none, some, true, false, within-add,
  arith, dec_lt,
}
use vec.Build.{Config, IsBuilt}
use vec.PageSize.{uses_mmap, mapped_size}
use vec.Machine.{Layout, Mem, Sys, copy}
use vec.Machine.Effect.{copy_ok, Unchanged, Dropped, Zeros, Mapped, Remapped, IsSys}
use vec.Allocator.{IsLayout, Allocated, Resized, ZeroedPast, Ends}
use vec.Alloc64.Heap.{HeapBlock, raised, align_layout-raised, Unchanged-refl, not_eq}
use vec.Alloc64.Replace.{within-longer}
use vec.MmapAlloc.{hint_thp, heap_dealloc, into_mapping, relocate}
use vec.MmapAlloc.Hybrid.{hybrid, held-owned, MappedBlock}
use vec.MmapAlloc.Mapping.{
  Got, hint_thp-Unchanged, Mapped-Allocated, mapped-enough, mapped-whole, page-aligned,
}
use vec.MmapAlloc.Relocate.{Relocated-Resized, Relocated-Zeros}
use vec.MmapAlloc.Remap.{Grown, Resized-after, ZeroedPast-after, Remapped-Resized}

-- A call after one that has changed nothing.
pub Unchanged-trans : {m m1 m2 : Mem} → Unchanged m m1 → Unchanged m1 m2 → Unchanged m m2
Unchanged-trans {m} {m1} un vn = record {
  owner = λ a. vn.owner a ∙ un.owner a;
  block = λ r. vn.block r ∙ un.block r;
  byte = λ a h. vn.byte a (λ e. h (sym (un.owner a) ∙ e)) ∙ un.byte a h;
}

module _ {c : Config} (b : IsBuilt c) {s : Sys} (sys : IsSys s) where
  abbrev extent : Layout → ℕ
  extent l = (hybrid c s).extent l

  -- A new mapping has been had, `k` bytes copied, the old block released, and the hint given.
  pub finish :
      {m m2 m4 m5 : Mem} (p q k : ℕ) (old new : Layout)
      → uses_mmap c new.size ≡ true
      → (hybrid c s).Holds m p old
      → Allocated (hybrid c s) m m2 new q (mapped_size c new.size)
        × Zeros m2 q (mapped_size c new.size)
      → Dropped (copy p q k m2) m4 p (extent old)
      → ((r : ℕ) → r ≢ p → m4.block r ≡ m2.block r)
      → Unchanged m4 m5
      → 0 < extent old
      → 0 < mapped_size c new.size
      → k ≤ extent old
      → k ≤ mapped_size c new.size
      → Resized (hybrid c s) m m5 p old q new (mapped_size c new.size) k
        × ((i : ℕ) → k ≤ i → i < mapped_size c new.size → m5.byte (q + i) ≡ 0)
  finish {m} {m2} {m4} {m5} p q k old new on held (got, z) gone blocks un pos pos' le le' =
      let re =
        Relocated-Resized c s k old new held got gone pos (rw on pos') le (rw on le') blocks in
      (
        Resized-after c s p q _ k old new held re un le',
        λ i h g.
            un.byte (q + i) (
              held-owned c s m4 q new (q + i) re.held
                (rw on (within-add q (mapped_size c new.size) i g)))
            ∙ Relocated-Zeros c s k old new held got gone (rw on (omega arith)) z i h g,
      )

  module _ (p : ℕ) (old new : Layout) (m : Mem) (vo : IsLayout old) (vn : IsLayout new)
      (on : uses_mmap c new.size ≡ true) (pos : 0 < old.size) (le : old.size ≤ new.size)
      (held : (hybrid c s).Holds m p old) where
    -- Bytes of the new block may be written.
    copy_ok_new :
        (m2 : Mem) (q n k : ℕ)
        → s.Ok m2
        → Allocated (hybrid c s) m m2 new q n
        → k ≤ mapped_size c new.size
        → s.Ok (copy p q k m2)
    copy_ok_new m2 q n k ok got fits = copy_ok sys p q k m2 ok (λ a h.
        held-owned c s m2 q new a got.held
          (rw on (within-longer q k (mapped_size c new.size) a fits h)))

    pub into_mapping-Grown :
        (o : Option ℕ × Mem)
        → uses_mmap c old.size ≡ false
        → Got m (λ q m1. Mapped s.page_size m m1 q (mapped_size c new.size) × s.Ok m1) o
        → Ends
            (hybrid c s)
            m
            (Grown c s m p old new)
            (into_mapping c s p old new.size (mapped_size c new.size) o)
    unfolding heap_dealloc
    into_mapping-Grown (none, m2) off un = un
    into_mapping-Grown (some q, m2) off (map, ok) =
        let big = mapped-enough b sys new vn on in
        let got = Mapped-Allocated b sys new q vn on map (Unchanged-refl m2) in
        let at : HeapBlock m2 p old = (rw off at (got.0.others p old pos held)) in
        let (gone, blocks) =
          sys.dealloc_lem p (raised old) (copy p q old.size m2)
            (copy_ok_new m2 q _ old.size ok got.0 (omega arith)) at.at in
        let (re, z) =
          finish p q old.size old new on held got (rw off gone) (λ r ne. blocks r ∙ rw (not_eq ne))
            (hint_thp-Unchanged b sys q new.size (mapped_size c new.size) _) (rw off pos)
            (omega arith) (rw off (omega arith)) (omega arith) in
        rw (align_layout-raised vo) (re, λ i h g. inl (z i h g))

    module _ (small : sys.page_bits ≤ b.bits) (gigantic : sys.page_bits ≤ 30)
        (was : uses_mmap c old.size ≡ true) where
      -- Through a fresh mapping, from a mapping.
      pub relocate-Grown :
          (o : Option ℕ × Mem)
          → Got m (λ q m1. Mapped s.page_size m m1 q (mapped_size c new.size) × s.Ok m1) o
          → Ends
              (hybrid c s)
              m
              (Grown c s m p old new)
              (relocate c s p old.size (mapped_size c old.size) new.size (mapped_size c new.size) o)
      relocate-Grown (none, m2) un = un
      relocate-Grown (some q, m2) (map, ok) =
          let big = mapped-enough b sys new vn on in
          let wide = mapped-enough b sys old vo was in
          let got = Mapped-Allocated b sys new q vn on map (Unchanged-refl m2) in
          let at : MappedBlock c s m2 p old = (rw was at (got.0.others p old pos held)) in
          let (gone, blocks) =
            sys.munmap_lem p (mapped_size c old.size) (copy p q old.size m2)
              (copy_ok_new m2 q _ old.size ok got.0 (omega arith)) at.whole
              (mapped-whole b sys small gigantic old vo was) at.mapped in
          let (re, z) =
            finish p q old.size old new on held got (rw was gone) (λ r ne. blocks r)
              (hint_thp-Unchanged b sys q new.size (mapped_size c new.size) _)
              (rw was (omega arith)) (omega arith) (rw was wide.0) (omega arith) in
          (re, λ i h g. inl (z i h g))

      -- The kernel has moved or extended the mapping.
      pub Remapped-Grown :
          (q : ℕ) (m1 : Mem)
          → Remapped s.page_size m m1 p (mapped_size c old.size) q (mapped_size c new.size)
          → Grown c s m p old new q
              (mapped_size c new.size)
              (hint_thp c s q new.size (mapped_size c new.size) m1)
      Remapped-Grown q m1 re =
          let big = mapped-enough b sys new vn on in
          let wide = mapped-enough b sys old vo was in
          let moved =
            Remapped-Resized c s p q old.size old new was on re (page-aligned b sys q re.aligned)
              wide.0 (omega arith) big.0 in
          let un = hint_thp-Unchanged b sys q new.size (mapped_size c new.size) m1 in
          (
            Resized-after c s p q _ old.size old new held moved un (omega arith),
            ZeroedPast-after c s p q _ old.size old new held moved un past,
          )
        where
          past : ZeroedPast m m1 p old.size (extent old) q (mapped_size c new.size)
          past i h g = elim (dec_lt i (mapped_size c old.size)) [
            | yes lt ↦ inr (rw was lt, re.moved.kept i lt g)
            | no ge ↦ inl (re.grown i (omega arith) g)
          ]

      -- The pages are the same.
      pub same_pages-Grown :
          mapped_size c old.size ≡ mapped_size c new.size
          → Grown c s m p old new p (mapped_size c new.size) m
      same_pages-Grown e =
          let big = mapped-enough b sys new vn on in
          let at : MappedBlock c s m p old = (rw was at held) in
          (
            record {
              aligned = page-aligned b sys p at.whole;
              enough = big.0;
              within_extent = rw on (omega arith);
              held = rw on (record { mapped = (rw e at at.mapped); whole = at.whole });
              kept = λ i h. refl;
              released = rw (was, on, e) (λ a h g. absurd (ground arith));
              owners = λ a h g. refl;
              disjoint = rw (was, on, e) (λ a h. inr h);
              bytes = λ a h g. refl;
              others = λ r x big ne away h. h;
            },
            λ i h g. inr (rw (was, e) g, refl),
          )
