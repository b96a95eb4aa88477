-- ===== src/Vec64/Growth/Kept.antt =====
-- `grow` keeps the heap and the kernel in order, on every path.
use vec.Base.{
  ℕ, ◌≤◌, ◌<◌, ◌≡◌, Option, none, some, Bool, true, false, ◌==◌, arith, Bool-cases, inl, inr,
}
use vec.Build.{Config, IsBuilt}
use vec.PageSize.{uses_mmap, mapped_size}
use vec.Machine.{Layout, Mem, Sys, copy, may_move, map_failed}
use vec.Machine.Effect.{copy_ok, IsSys, Mapped}
use vec.Allocator.{IsLayout, Ends, Resized}
use vec.Alloc64.Heap.{align_layout-raised, raised}
use vec.Alloc64.Replace.{within-longer}
use vec.Alloc64.Correct.{grow-Resized}
use vec.MmapAlloc.Mapping.{Got, do_mmap-Got, mapped-enough}
use vec.MmapAlloc.Correct.{grow-hybrid, mapped_up}
use vec.MmapAlloc.{do_mmap, into_mapping, relocate, remapped, grow, heap_grow, heap_dealloc}
use vec.Vec64.Held.{holding_by}
use vec.Vec64.New.Fresh.{Leaves, Ends-and, hint_thp_ok, hinted_ok, fat_ok}
use vec.Vec64.Growth.{grow_by}
use vec.Alloc64

module _ {c : Config} (b : IsBuilt c) {s : Sys} (sys : IsSys s) (small : sys.page_bits ≤ b.bits)
    (gigantic : sys.page_bits ≤ 30) where
  -- Bytes of a new mapping may be written.
  fresh_copy_ok :
      (p q n k : ℕ) (m m2 : Mem)
      → Mapped s.page_size m m2 q k
      → s.Ok m2
      → n ≤ k
      → s.Ok (copy p q n m2)
  fresh_copy_ok p q n k m m2 map ok le =
      copy_ok sys p q n m2 ok (λ a h. ground (arith, map.took.owner a, within-longer q n k a le h))

  module _ (p : ℕ) (old new : Layout) (m : Mem) (vo : IsLayout old) (vn : IsLayout new)
      (pos : 0 < old.size) (le : old.size ≤ new.size) where
    into_mapping_ok :
        (o : Option ℕ × Mem)
        → old.size ≤ mapped_size c new.size
        → Got m (λ q m1. Mapped s.page_size m m1 q (mapped_size c new.size) × s.Ok m1) o
        → Leaves s.Ok (into_mapping c s p old new.size (mapped_size c new.size) o)
    unfolding heap_dealloc
    into_mapping_ok (none, m2) fits got = tt
    into_mapping_ok (some q, m2) fits (map, ok) = rw (align_layout-raised vo) (
        hint_thp_ok b sys q new.size (mapped_size c new.size) _ (
          sys.dealloc_ok p (raised old) _
            (fresh_copy_ok p q old.size (mapped_size c new.size) m m2 map ok fits)))

    relocate_ok :
        (m1 : Mem) (o : Option ℕ × Mem)
        → old.size ≤ mapped_size c new.size
        → Got m1 (λ q m2. Mapped s.page_size m1 m2 q (mapped_size c new.size) × s.Ok m2) o
        → Leaves s.Ok
            (relocate c s p old.size (mapped_size c old.size) new.size (mapped_size c new.size) o)
    relocate_ok m1 (none, m2) fits got = tt
    relocate_ok m1 (some q, m2) fits (map, ok) =
        hint_thp_ok b sys q new.size (mapped_size c new.size) _ (
          sys.munmap_ok p (mapped_size c old.size) _
            (fresh_copy_ok p q old.size (mapped_size c new.size) m1 m2 map ok fits))

    remapped_ok :
        (raw : ℕ) (m1 : Mem)
        → uses_mmap c new.size ≡ true
        → s.Ok m1
        → Leaves s.Ok (
            remapped c s p old.size
              (mapped_size c old.size)
              new.size
              (mapped_size c new.size)
              (raw, m1))
    remapped_ok raw m1 on ok =
        let big = mapped-enough b sys new vn on in
        elim (Bool-cases (raw == map_failed)) [
          | inl failed ↦ rw failed (
              relocate_ok m1 (do_mmap c s new.size (mapped_size c new.size) m1) (omega arith)
                (do_mmap-Got b sys new.size (mapped_size c new.size) m1 ok (omega arith)))
          | inr fine ↦ elim (Bool-cases (raw == 0)) [
            | inl null ↦ rw (fine, null) tt
            | inr real ↦
                rw (fine, real) (hint_thp_ok b sys raw new.size (mapped_size c new.size) m1 ok)
          ]
        ]

    grow_ok : s.Ok m → Leaves s.Ok (grow c s p old new m)
    unfolding grow heap_grow
    grow_ok ok = elim (Bool-cases (uses_mmap c old.size)) [
      | inl was ↦ elim (Bool-cases (mapped_size c old.size == mapped_size c new.size)) [
        | inl same ↦ rw (was, same) ok
        | inr differ ↦
            rw (was, differ)
              (remapped_ok
                (s.mremap p (mapped_size c old.size) (mapped_size c new.size) may_move m).0
                (s.mremap p (mapped_size c old.size) (mapped_size c new.size) may_move m).1
                (mapped_up b sys small gigantic old.size new.size le was)
                (sys.mremap_ok p _ _ may_move m ok))
      ]
      | inr off ↦ elim (Bool-cases (uses_mmap c new.size)) [
        | inl on ↦
            let big = mapped-enough b sys new vn on in
            rw (off, on)
              (into_mapping_ok (do_mmap c s new.size (mapped_size c new.size) m) (omega arith)
                (do_mmap-Got b sys new.size (mapped_size c new.size) m ok (omega arith)))
        | inr still ↦
            rw (off, still, align_layout-raised vn, align_layout-raised vo)
              (fat_ok b sys _ _ _ (sys.realloc_ok p (raised old) new.size m ok))
      ]
    ]

    alloc64_grow_ok : s.Ok m → Leaves s.Ok (Alloc64.grow c s p old new m)
    unfolding Alloc64.grow
    alloc64_grow_ok ok =
        rw (align_layout-raised vn, align_layout-raised vo)
          (hinted_ok b sys _ _ _ (sys.realloc_ok p (raised old) new.size m ok))

    -- Either allocator grows a block as the contract has it, and keeps the heap and the kernel in order.
    pub grow_by-Resized :
        (on : Bool)
        → new.align ≡ old.align
        → s.Ok m
        → (holding_by on c s).Holds m p old
        → Ends
            (holding_by on c s)
            m
            (λ q n m1. Resized (holding_by on c s) m m1 p old q new n old.size × s.Ok m1)
            (grow_by on c s p old new m)
    grow_by-Resized true same ok held =
        Ends-and (holding_by true c s) m _ s.Ok (grow_by true c s p old new m)
          (grow-hybrid b sys small gigantic p old new m vo vn same pos le ok held) (grow_ok ok)
    grow_by-Resized false same ok held =
        Ends-and (holding_by false c s) m _ s.Ok (grow_by false c s p old new m)
          (grow-Resized c sys p old new m vo vn same (omega arith) le ok held) (alloc64_grow_ok ok)
