-- ===== src/MmapAlloc/Fresh.antt =====
-- `MAllocPg64::allocate`, `allocate_zeroed` and `deallocate` against the contract of `Allocator`.
use vec.Base.{ℕ, ◌≤◌, ◌<◌, ◌≡◌, inl, inr, ◌∙◌, Option, none, some, true, false, arith, Bool-cases}
use vec.Build.{Config, IsBuilt}
use vec.PageSize.{uses_mmap, mapped_size}
use vec.Machine.{Layout, Mem, Sys}
use vec.Machine.Effect.{Mapped, IsSys, Zeros, Dropped, SameBlocks}
use vec.Allocator.{IsLayout, Call, Ends, Allocated, Deallocated, Completes}
use vec.Alloc64.Heap.{HeapBlock, heap_holding}
use vec.Alloc64.Correct.{allocate-Allocated, allocate_zeroed-Allocated, deallocate-Deallocated}
use vec.MmapAlloc.{
  do_mmap, map_new, hint_fat, allocate, allocate_zeroed, deallocate, heap_alloc, heap_alloc_zeroed,
  heap_dealloc,
}
use vec.MmapAlloc.Hybrid.{MappedBlock, hybrid, either, hybrid-Allocated, hybrid-Deallocated}
use vec.MmapAlloc.Mapping.{
  Got, do_mmap-Got, hint_thp-Unchanged, Mapped-Allocated, mapped-enough, mapped-whole,
}
use vec.Alloc64.{hinted, hint_hugepage}
use vec.Alloc64

-- The heap paths are those of `Alloc64` without the hint.
abbrev pub no_hint : Config
no_hint = record { huge_page = 4096; mmap = true; giant_pages = false; thp = false }

-- A weaker postcondition, for another way to hold blocks.
pub Ends-map :
    (m : Mem) {P Q : ℕ → ℕ → Mem → Type 0} (e : Call)
    → ((p n : ℕ) (m1 : Mem) → P p n m1 → Q p n m1)
    → Ends heap_holding m P e
    → Ends heap_holding m Q e
Ends-map m none f h = h
Ends-map m (some (none, m1)) f h = h
Ends-map m (some (some (p, n), m1)) f h = f p n m1 h

module _ {c : Config} (b : IsBuilt c) {s : Sys} (sys : IsSys s) where
  pub heap_alloc-Allocated :
      (l : Layout) (m : Mem)
      → IsLayout l
      → 0 < l.size
      → s.Ok m
      → Ends heap_holding m (λ p n m1. Allocated heap_holding m m1 l p n) (heap_alloc c s l m)
  unfolding heap_alloc Alloc64.allocate hinted hint_hugepage
  heap_alloc-Allocated l m v pos ok = allocate-Allocated no_hint sys l m v pos ok

  pub map_new-Allocated :
      (l : Layout) (m : Mem)
      → IsLayout l
      → uses_mmap c l.size ≡ true
      → s.Ok m
      → Ends
          (hybrid c s)
          m
          (λ p n m1. Allocated (hybrid c s) m m1 l p n × Zeros m1 p n)
          (map_new c s l m)
  unfolding map_new
  map_new-Allocated l m v on ok =
      let big = mapped-enough b sys l v on in
      go (do_mmap c s l.size (mapped_size c l.size) m)
        (do_mmap-Got b sys l.size (mapped_size c l.size) m ok (omega arith))
    where
      go :
          (o : Option ℕ × Mem)
          → Got m (λ p m1. Mapped s.page_size m m1 p (mapped_size c l.size) × s.Ok m1) o
          → Ends
              (hybrid c s)
              m
              (λ p n m1. Allocated (hybrid c s) m m1 l p n × Zeros m1 p n)
              (hint_fat c s l.size (mapped_size c l.size) o)
      go (none, m1) un = un
      go (some p, m1) (map, _) =
          Mapped-Allocated b sys l p v on map (hint_thp-Unchanged b sys p l.size _ m1)

  -- `MAllocPg64::allocate` does not panic: it succeeds with a block of 64-byte alignment, from the
  -- heap or a mapping by the size, that is at least as large as asked for and that nothing else
  -- uses, or reports `AllocError` and has changed nothing. The layout has a positive size; that the address is a multiple of
  -- an alignment above 64 is not stated.
  pub allocate-hybrid :
      (l : Layout) (m : Mem)
      → IsLayout l
      → 0 < l.size
      → s.Ok m
      → Ends (hybrid c s) m (λ p n m1. Allocated (hybrid c s) m m1 l p n) (allocate c s l m)
  unfolding allocate
  allocate-hybrid l m v pos ok = elim (Bool-cases (uses_mmap c l.size)) [
    | inl on ↦
        rw on (Ends-map m (map_new c s l m) (λ p n m1 h. h.0) (map_new-Allocated l m v on ok))
    | inr off ↦ rw off (
        Ends-map m (heap_alloc c s l m) (λ p n m1 h. hybrid-Allocated c s off h)
          (heap_alloc-Allocated l m v pos ok))
  ]

  heap_alloc_zeroed-Allocated :
      (l : Layout) (m : Mem)
      → IsLayout l
      → 0 < l.size
      → s.Ok m
      → Ends heap_holding m
          (λ p n m1. Allocated heap_holding m m1 l p n × Zeros m1 p n)
          (heap_alloc_zeroed c s l m)
  unfolding heap_alloc_zeroed Alloc64.allocate_zeroed hinted hint_hugepage
  heap_alloc_zeroed-Allocated l m v pos ok = allocate_zeroed-Allocated no_hint sys l m v pos ok

  -- As `allocate`, and every byte of the block is zero, on the mapped path too, where the code
  -- clears nothing. The layout has a positive size.
  pub allocate_zeroed-hybrid :
      (l : Layout) (m : Mem)
      → IsLayout l
      → 0 < l.size
      → s.Ok m
      → Ends
          (hybrid c s)
          m
          (λ p n m1. Allocated (hybrid c s) m m1 l p n × Zeros m1 p n)
          (allocate_zeroed c s l m)
  unfolding allocate_zeroed allocate
  allocate_zeroed-hybrid l m v pos ok = elim (Bool-cases (uses_mmap c l.size)) [
    | inl on ↦ rw on (map_new-Allocated l m v on ok)
    | inr off ↦ rw off (
        Ends-map m (heap_alloc_zeroed c s l m) (λ p n m1 h. (hybrid-Allocated c s off h.0, h.1))
          (heap_alloc_zeroed-Allocated l m v pos ok))
  ]

  heap_dealloc-Deallocated :
      (p : ℕ) (l : Layout) (m : Mem)
      → IsLayout l
      → s.Ok m
      → HeapBlock m p l
      → Completes (λ m1. Deallocated heap_holding m m1 p l) (heap_dealloc c s p l m)
  unfolding heap_dealloc Alloc64.deallocate
  heap_dealloc-Deallocated p l m v ok held = deallocate-Deallocated no_hint sys p l m v ok held

  pub Unmapped-Deallocated :
      {m m1 : Mem} (p : ℕ) (l : Layout)
      → uses_mmap c l.size ≡ true
      → Dropped m m1 p (mapped_size c l.size)
      → SameBlocks m m1
      → Deallocated (hybrid c s) m m1 p l
  Unmapped-Deallocated {m} {m1} p l on gone blocks = record {
    released = rw on (λ a h. gone.owner a ∙ rw h);
    owners = rw on (λ a h. gone.owner a ∙ rw h);
    bytes = rw on gone.byte;
    others = λ r x pos ne apart.
        either c s m m1 r x
          (λ e h. record {
            at = blocks r ∙ h.at;
            bytes_held = λ a i. gone.owner a ∙ rw ((rw (e, on) at apart a) i) (h.bytes_held a i);
          })
          (λ e a i h. gone.owner a ∙ rw ((rw (e, on) at apart a) i) h);
  }

  Completes-map :
      {P Q : Mem → Type 0} (e : Option Mem)
      → ((m1 : Mem) → P m1 → Q m1)
      → Completes P e
      → Completes Q e
  Completes-map none f h = h
  Completes-map (some m1) f h = f m1 h

  -- Where the kernel's page is no larger than `HUGE_PAGE` and 1 GiB, `deallocate` gives back
  -- exactly the bytes that `allocate` took, the rounding to pages included. It does not panic.
  pub deallocate-hybrid :
      (p : ℕ) (l : Layout) (m : Mem)
      → sys.page_bits ≤ b.bits
      → sys.page_bits ≤ 30
      → IsLayout l
      → s.Ok m
      → (hybrid c s).Holds m p l
      → Completes (λ m1. Deallocated (hybrid c s) m m1 p l) (deallocate c s p l m)
  unfolding deallocate
  deallocate-hybrid p l m small gigantic v ok held = elim (Bool-cases (uses_mmap c l.size)) [
    | inl on ↦
        let at : MappedBlock c s m p l = (rw on at held) in
        let (gone, blocks) =
          sys.munmap_lem p (mapped_size c l.size) m ok at.whole
            (mapped-whole b sys small gigantic l v on) at.mapped in
        rw on (Unmapped-Deallocated p l on gone blocks)
    | inr off ↦ rw off (
        Completes-map (heap_dealloc c s p l m) (λ m1 h. hybrid-Deallocated c s off h)
          (heap_dealloc-Deallocated p l m v ok (rw off at held)))
  ]
