-- ===== src/Alloc64/Correct.antt =====
-- `Alloc64` against the contract of `Allocator`, for every system.
use vec.Base.{ℕ, ◌≤◌, ◌<◌, ◌≡◌, inl, inr, none, some, arith, ◌==◌, Bool-cases}
use vec.Build.{Config}
use vec.Machine.{Layout, Mem, Sys, copy}
use vec.Machine.Effect.{copy_ok, Unchanged, IsSys, Zeros}
use vec.Allocator.{IsLayout, Call, Allocated, Resized, Deallocated, Ends, ZeroedPast, Completes}
use vec.Alloc64.{
  replace, ◌>>=◌, allocate, allocate_zeroed, deallocate, grow, shrink, grow_zeroed, hint_hugepage,
  hinted,
}
use vec.Alloc64.Replace.{Replaced-Resized, Replaced-Zeroed, within-longer}
use vec.Alloc64.Heap.{
  raised, align_layout-raised, HeapBlock, heap_holding, Unchanged-refl, Alloced-Allocated,
  Realloced-Resized, Dropped-Deallocated, Zeros-Unchanged,
}

-- The allocator's invariant after a call.
abbrev AllOk : (Mem → Type 0) → Call → Type 0
AllOk Ok none = Unit
AllOk Ok (some (b, m)) = Ok m

module _ (c : Config) {s : Sys} (sys : IsSys s) where
  hint-Unchanged : (p n : ℕ) (m : Mem) → Unchanged m (hint_hugepage c s p n m)
  unfolding hint_hugepage
  hint-Unchanged p n m = elim (Bool-cases c.thp) [
    | inl on ↦ rw on (sys.madvise_huge_lem _ _ m)
    | inr off ↦ rw off (Unchanged-refl m)
  ]

  -- `allocate` succeeds with a block of 64-byte alignment that nothing else uses, or reports
  -- `AllocError` and has changed nothing. It does not panic.
  pub allocate-Allocated :
      (l : Layout) (m : Mem)
      → IsLayout l
      → 0 < l.size
      → s.Ok m
      → Ends heap_holding m (λ p n m'. Allocated heap_holding m m' l p n) (allocate c s l m)
  unfolding allocate hinted
  allocate-Allocated l m v pos ok =
      let lem = sys.alloc_lem (raised l) m ok pos in
      elim (Bool-cases ((s.alloc (raised l) m).0 == 0)) [
        | inl null ↦ rw (align_layout-raised v, null) (rw null at lem)
        | inr fine ↦
            rw (align_layout-raised v, fine)
              (Alloced-Allocated l _ v pos (rw fine at lem) (hint-Unchanged _ _ _))
      ]

  -- As `allocate`, and the block is filled with zeros.
  pub allocate_zeroed-Allocated :
      (l : Layout) (m : Mem)
      → IsLayout l
      → 0 < l.size
      → s.Ok m
      → Ends heap_holding m
          (λ p n m'. Allocated heap_holding m m' l p n × Zeros m' p n)
          (allocate_zeroed c s l m)
  unfolding allocate_zeroed hinted
  allocate_zeroed-Allocated l m v pos ok =
      let lem = sys.alloc_zeroed_lem (raised l) m ok pos in
      elim (Bool-cases ((s.alloc_zeroed (raised l) m).0 == 0)) [
        | inl null ↦ rw (align_layout-raised v, null) (rw null at lem)
        | inr fine ↦
            rw (align_layout-raised v, fine)
              (let got = (rw fine at lem) in
                let un =
                  hint-Unchanged ((s.alloc_zeroed (raised l) m).0) l.size
                    ((s.alloc_zeroed (raised l) m).1) in
                (Alloced-Allocated l _ v pos got.0 un, Zeros-Unchanged l _ got.0 un got.1))
      ]

  -- `deallocate` gives back exactly the bytes of the block and does not panic.
  pub deallocate-Deallocated :
      (p : ℕ) (l : Layout) (m : Mem)
      → IsLayout l
      → s.Ok m
      → HeapBlock m p l
      → Completes (λ m'. Deallocated heap_holding m m' p l) (deallocate c s p l m)
  unfolding deallocate
  deallocate-Deallocated p l m v ok held = rw (align_layout-raised v) (
      let (gone, blocks) = sys.dealloc_lem p (raised l) m ok held.at in
      Dropped-Deallocated p l gone blocks)

  -- `grow` to a layout of the same alignment keeps all old bytes at the start of the new block,
  -- and touches nothing else; on `AllocError` the old block is still there. It does not panic.
  pub grow-Resized :
      (p : ℕ) (old new : Layout) (m : Mem)
      → IsLayout old
      → IsLayout new
      → new.align ≡ old.align
      → 0 < new.size
      → old.size ≤ new.size
      → s.Ok m
      → HeapBlock m p old
      → Ends heap_holding m
          (λ q n m'. Resized heap_holding m m' p old q new n old.size)
          (grow c s p old new m)
  unfolding grow hinted
  grow-Resized p old new m vo vn same pos le ok held =
      let lem = sys.realloc_lem p (raised old) new.size m ok held.at pos in
      elim (Bool-cases ((s.realloc p (raised old) new.size m).0 == 0)) [
        | inl null ↦ rw (align_layout-raised vo, align_layout-raised vn, null) (rw null at lem)
        | inr fine ↦
            rw (align_layout-raised vo, align_layout-raised vn, fine)
              (Realloced-Resized p _ old new old.size vo (rw fine at lem) (hint-Unchanged _ _ _)
                same pos (omega arith) le)
      ]

  -- `shrink` to a layout of the same alignment keeps the bytes that fit, and touches nothing else;
  -- on `AllocError` the old block is still there. It does not panic.
  pub shrink-Resized :
      (p : ℕ) (old new : Layout) (m : Mem)
      → IsLayout old
      → IsLayout new
      → new.align ≡ old.align
      → 0 < new.size
      → new.size ≤ old.size
      → s.Ok m
      → HeapBlock m p old
      → Ends heap_holding m
          (λ q n m'. Resized heap_holding m m' p old q new n new.size)
          (shrink c s p old new m)
  unfolding shrink
  shrink-Resized p old new m vo vn same pos le ok held =
      let lem = sys.realloc_lem p (raised old) new.size m ok held.at pos in
      elim (Bool-cases ((s.realloc p (raised old) new.size m).0 == 0)) [
        | inl null ↦ rw (align_layout-raised vo, align_layout-raised vn, null) (rw null at lem)
        | inr fine ↦
            rw (align_layout-raised vo, align_layout-raised vn, fine)
              (Realloced-Resized p _ old new new.size vo (rw fine at lem) (Unchanged-refl _) same
                pos le (omega arith))
      ]

  allocate_zeroed_ok :
      (l : Layout) (m : Mem) → IsLayout l → s.Ok m → AllOk s.Ok (allocate_zeroed c s l m)
  unfolding allocate_zeroed hinted hint_hugepage
  allocate_zeroed_ok l m v ok = elim (Bool-cases ((s.alloc_zeroed (raised l) m).0 == 0)) [
    | inl null ↦ rw (align_layout-raised v, null) (sys.alloc_zeroed_ok _ m ok)
    | inr fine ↦ elim (Bool-cases c.thp) [
      | inl on ↦
          rw (align_layout-raised v, fine, on) (sys.madvise_ok _ _ _ _ (sys.alloc_zeroed_ok _ m ok))
      | inr off ↦ rw (align_layout-raised v, fine, off) (sys.alloc_zeroed_ok _ m ok)
    ]
  ]

  -- The call of `grow_zeroed` after the new block has been had.
  replace-Resized :
      (p : ℕ) (old new : Layout) (m : Mem) (b : Call)
      → IsLayout old
      → 0 < old.size
      → old.size ≤ new.size
      → HeapBlock m p old
      → AllOk s.Ok b
      → Ends heap_holding m (λ q n m'. Allocated heap_holding m m' new q n × Zeros m' q n) b
      → Ends heap_holding m
          (λ q n m'.
            Resized heap_holding m m' p old q new n old.size
            × ZeroedPast m m' p old.size old.size q n)
          (b >>= replace c s p old)
  unfolding deallocate
  replace-Resized p old new m none vo pos le held ok e = e
  replace-Resized p old new m (some (none, m2)) vo pos le held ok un = un
  replace-Resized p old new m (some (some (q, n), m2)) vo pos le held ok (got, z) =
      let ok2 = copy_ok sys p q old.size m2 ok (λ a h.
        ground
          (arith, got.held.bytes_held a, got.enough, within-longer q old.size new.size a le h)) in
      let (gone, blocks) =
        sys.dealloc_lem p (raised old) (copy p q old.size m2) ok2
          ((got.others p old pos held).at) in
      rw (align_layout-raised vo)
        (Replaced-Resized held got gone pos le blocks, Replaced-Zeroed held got gone le z)

  -- `grow_zeroed` gives a block that begins with all old bytes and goes on with zeros, at any
  -- alignment of the new layout, frees the old block, and touches nothing else; on `AllocError`
  -- the old block is still there. It does not panic.
  pub grow_zeroed-Resized :
      (p : ℕ) (old new : Layout) (m : Mem)
      → IsLayout old
      → IsLayout new
      → 0 < old.size
      → old.size ≤ new.size
      → s.Ok m
      → HeapBlock m p old
      → Ends heap_holding m
          (λ q n m'.
            Resized heap_holding m m' p old q new n old.size
            × ZeroedPast m m' p old.size old.size q n)
          (grow_zeroed c s p old new m)
  unfolding grow_zeroed
  grow_zeroed-Resized p old new m vo vn pos le ok held =
      replace-Resized p old new m (allocate_zeroed c s new m) vo pos le held
        (allocate_zeroed_ok new m vn ok) (allocate_zeroed-Allocated new m vn (omega arith) ok)
