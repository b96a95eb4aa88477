-- ===== src/Vec64/New/Fresh.antt =====
-- The blocks that new vectors are made of, under both allocators.
use vec.Base.{ℕ, ◌<◌, ◌≡◌, Option, none, some, Bool, true, false, ◌==◌, arith, Bool-cases, inl, inr}
use vec.Build.{Config, IsBuilt}
use vec.PageSize.{uses_mmap, uses_giant_pages, mapped_size}
use vec.Machine.{Layout, Mem, Sys, huge_page}
use vec.Machine.Effect.{IsSys, Mapped, Zeros}
use vec.Allocator.{IsLayout, Allocated, Ends, Call, Holding}
use vec.Alloc64.Heap.{align_layout-raised, raised}
use vec.Alloc64.Correct.{allocate-Allocated, allocate_zeroed-Allocated}
use vec.MmapAlloc.Mapping.{Got, do_mmap-Got, mapped-enough}
use vec.MmapAlloc.Fresh.{allocate-hybrid, allocate_zeroed-hybrid}
use vec.MmapAlloc.{do_mmap, hint_fat}
use vec.Vec64.Held.{holding_by}
use vec.Vec64.New.{allocate_by, allocate_zeroed_by}
use vec.Alloc64
use vec.MmapAlloc

-- Where the call succeeds, the memory satisfies `P`.
abbrev pub Leaves : (Mem → Type 0) → Call → Type 0
Leaves P none = Unit
Leaves P (some (none, m)) = Unit
Leaves P (some (some x, m)) = P m

pub Ends-and :
    (h : Holding) (m : Mem) (P : ℕ → ℕ → Mem → Type 0) (Q : Mem → Type 0) (e : Call)
    → Ends h m P e
    → Leaves Q e
    → Ends h m (λ p n m1. P p n m1 × Q m1) e
Ends-and hold m P Q none h g = h
Ends-and hold m P Q (some (none, m1)) h g = h
Ends-and hold m P Q (some (some (p, n), m1)) h g = (h, g)

module _ {c : Config} (b : IsBuilt c) {s : Sys} (sys : IsSys s) where
  pub hint_thp_ok : (p n k : ℕ) (m : Mem) → s.Ok m → s.Ok (MmapAlloc.hint_thp c s p n k m)
  unfolding MmapAlloc.hint_thp
  hint_thp_ok p n k m ok = elim (Bool-cases (uses_giant_pages c n)) [
    | inl giant ↦ rw giant ok
    | inr huge ↦ rw huge (sys.madvise_ok _ _ huge_page m ok)
  ]

  pub hinted_ok : (p n : ℕ) (m : Mem) → s.Ok m → Leaves s.Ok (some (Alloc64.hinted c s p n m))
  unfolding Alloc64.hinted Alloc64.hint_hugepage
  hinted_ok p n m ok = elim (Bool-cases (p == 0)) [
    | inl null ↦ rw null tt
    | inr fine ↦ elim (Bool-cases c.thp) [
      | inl on ↦ rw (fine, on) (sys.madvise_ok _ _ huge_page m ok)
      | inr off ↦ rw (fine, off) ok
    ]
  ]

  pub fat_ok : (p n : ℕ) (m : Mem) → s.Ok m → Leaves s.Ok (some (Alloc64.fat p n m))
  fat_ok p n m ok = elim (Bool-cases (p == 0)) [ inl null ↦ rw null tt | inr fine ↦ rw fine ok ]

  hint_fat_ok :
      (n k : ℕ) (m : Mem) (o : Option ℕ × Mem)
      → Got m (λ p m1. Mapped s.page_size m m1 p k × s.Ok m1) o
      → Leaves s.Ok (hint_fat c s n k o)
  hint_fat_ok n k m (none, m1) got = tt
  hint_fat_ok n k m (some p, m1) got = hint_thp_ok p n k m1 got.1

  module _ (l : Layout) (m : Mem) (v : IsLayout l) (pos : 0 < l.size) (ok : s.Ok m) where
    mapped_ok : uses_mmap c l.size ≡ true → Leaves s.Ok (MmapAlloc.map_new c s l m)
    unfolding MmapAlloc.map_new
    mapped_ok large =
        let big = mapped-enough b sys l v large in
        hint_fat_ok l.size (mapped_size c l.size) m _
          (do_mmap-Got b sys l.size (mapped_size c l.size) m ok (omega (arith, big.0, big.1)))

    allocate_ok : (on : Bool) → Leaves s.Ok (allocate_by on c s l m)
    unfolding MmapAlloc.allocate MmapAlloc.heap_alloc Alloc64.allocate
    allocate_ok true = elim (Bool-cases (uses_mmap c l.size)) [
      | inl large ↦ rw large (mapped_ok large)
      | inr little ↦
          rw (little, align_layout-raised v) (fat_ok _ _ _ (sys.alloc_ok (raised l) m ok))
    ]
    allocate_ok false = rw (align_layout-raised v) (hinted_ok _ _ _ (sys.alloc_ok (raised l) m ok))

    allocate_zeroed_ok : (on : Bool) → Leaves s.Ok (allocate_zeroed_by on c s l m)
    unfolding MmapAlloc.allocate_zeroed MmapAlloc.heap_alloc_zeroed Alloc64.allocate_zeroed
    allocate_zeroed_ok true = elim (Bool-cases (uses_mmap c l.size)) [
      | inl large ↦ rw large (mapped_ok large)
      | inr little ↦
          rw (little, align_layout-raised v) (fat_ok _ _ _ (sys.alloc_zeroed_ok (raised l) m ok))
    ]
    allocate_zeroed_ok false =
        rw (align_layout-raised v) (hinted_ok _ _ _ (sys.alloc_zeroed_ok (raised l) m ok))

    pub allocate_by-Allocated :
        (on : Bool)
        → Ends
            (holding_by on c s)
            m
            (λ p n m1. Allocated (holding_by on c s) m m1 l p n × s.Ok m1)
            (allocate_by on c s l m)
    allocate_by-Allocated true =
        Ends-and (holding_by true c s) m _ s.Ok (allocate_by true c s l m)
          (allocate-hybrid b sys l m v pos ok) (allocate_ok true)
    allocate_by-Allocated false =
        Ends-and (holding_by false c s) m _ s.Ok (allocate_by false c s l m)
          (allocate-Allocated c sys l m v pos ok) (allocate_ok false)

    pub allocate_zeroed_by-Allocated :
        (on : Bool)
        → Ends
            (holding_by on c s)
            m
            (λ p n m1. (Allocated (holding_by on c s) m m1 l p n × Zeros m1 p n) × s.Ok m1)
            (allocate_zeroed_by on c s l m)
    allocate_zeroed_by-Allocated true =
        Ends-and (holding_by true c s) m _ s.Ok (allocate_zeroed_by true c s l m)
          (allocate_zeroed-hybrid b sys l m v pos ok) (allocate_zeroed_ok true)
    allocate_zeroed_by-Allocated false =
        Ends-and (holding_by false c s) m _ s.Ok (allocate_zeroed_by false c s l m)
          (allocate_zeroed-Allocated c sys l m v pos ok) (allocate_zeroed_ok false)
