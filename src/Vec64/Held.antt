-- ===== src/Vec64/Held.antt =====
-- A vector holds the block of its capacity, as its allocator holds it.
use vec.Base.{
  ℕ, ◌+◌, ◌*◌, ◌≤◌, ◌<◌, ◌≡◌, ◌≢◌, Bool, true, false, within, within-add, arith, Bool-cases, inl,
  inr, ◌==◌, ==_iff, ◌^◌, refl, ◌%◌,
}
use vec.Build.{Config, IsBuilt}
use vec.PageSize.{uses_mmap, mapped_size}
use vec.PageSize.Laws.{mapped_size-le, huge_page-bounds}
use vec.Machine.{free, Layout, Mem, Sys}
use vec.Machine.Effect.{IsSys}
use vec.Allocator.{IsLayout, Holding}
use vec.Alloc64.Heap.{heap_holding}
use vec.MmapAlloc.Hybrid.{hybrid, held-owned, MappedBlock}
use vec.MmapAlloc.Mapping.{mapped-enough, mapped-whole}
use vec.Vec64.Raw.{RawVec}

-- `Vec64Alloc`: `MAllocPg64` with the feature `mmap`, `Alloc64` without.
abbrev pub holding_by : Bool → Config → Sys → Holding
holding_by true c s = hybrid c s
holding_by false c s = heap_holding

abbrev pub holding : Config → Sys → Holding
holding c s = holding_by c.mmap c s

-- `Layout::array::<T>(cap)`
abbrev pub layout_of : ℕ → ℕ → ℕ → Layout
layout_of elem align cap = record { size = cap * elem; align = align }

-- The bytes that the allocator takes for the vector.
abbrev pub extent : Config → Sys → ℕ → ℕ → RawVec → ℕ
extent c s elem align v = (holding c s).extent (layout_of elem align v.cap)

pub record IsVec (c : Config) (s : Sys) (elem align : ℕ) (v : RawVec) (m : Mem) : Type 0 where
  pub is_layout : IsLayout (layout_of elem align v.cap)
  pub in_cap : v.len ≤ v.cap
  pub held : 0 < v.cap * elem → (holding c s).Holds m v.ptr (layout_of elem align v.cap)

module _ {c : Config} (b : IsBuilt c) {s : Sys} (sys : IsSys s) (l : Layout) (vl : IsLayout l) where
  pub size-extent : (on : Bool) → l.size ≤ (holding_by on c s).extent l
  size-extent true = elim (Bool-cases (uses_mmap c l.size)) [
    | inl large ↦ rw large (mapped-enough b sys l vl large).0
    | inr little ↦ rw little (omega arith)
  ]
  size-extent false = omega arith

  pub size-owned :
      (on : Bool) (m : Mem) (p i : ℕ)
      → (holding_by on c s).Holds m p l
      → i < l.size
      → m.owner (p + i) ≢ free
  size-owned true m p i h g =
      held-owned c s m p l (p + i) h (within-add p _ i (omega (arith, size-extent true)))
  size-owned false m p i h g = ground (arith, h.bytes_held (p + i) (within-add p l.size i g))

uses_mmap-zero : (c : Config) → IsBuilt c → (n : ℕ) → n ≡ 0 → uses_mmap c n ≡ false
unfolding uses_mmap
uses_mmap-zero c b n e = ground (arith, huge_page-bounds b, e)

-- There is no block for no bytes.
pub extent-none :
    {c : Config} (b : IsBuilt c) (s : Sys) (on : Bool) (l : Layout) (p a : ℕ)
    → l.size ≡ 0
    → within p ((holding_by on c s).extent l) a ≡ false
unfolding within
extent-none {c} b s true l p a e = rw (uses_mmap-zero c b l.size e) (ground (arith, e))
extent-none b s false l p a e = ground (arith, e)

pub block-owned :
    (c : Config) (s : Sys) (on : Bool) (l : Layout) (m : Mem) (p a : ℕ)
    → (holding_by on c s).Holds m p l
    → within p ((holding_by on c s).extent l) a ≡ true
    → m.owner a ≢ free
block-owned c s true l m p a h g = held-owned c s m p l a h g
block-owned c s false l m p a h g = ground (arith, h.bytes_held a g)

held-Mapped :
    (c : Config) (s : Sys) (on : Bool) (l : Layout) (m : Mem) (p : ℕ)
    → on ≡ true
    → uses_mmap c l.size ≡ true
    → (holding_by on c s).Holds m p l
    → MappedBlock c s m p l × ((holding_by on c s).extent l ≡ mapped_size c l.size)
held-Mapped c s true l m p e large h = ((rw large at h), rw large refl)
held-Mapped c s false l m p e large h = absurd (ground (arith, e))

module _ {c : Config} (b : IsBuilt c) {s : Sys} (sys : IsSys s) {elem align : ℕ} {v : RawVec}
    {m : Mem} (vec : IsVec c s elem align v m) where
  pub cap-extent : v.cap * elem ≤ extent c s elem align v
  cap-extent = omega (arith, size-extent b sys (layout_of elem align v.cap) vec.is_layout c.mmap)

  pub cap-owned : (i : ℕ) → i < v.cap * elem → m.owner (v.ptr + i) ≢ free
  cap-owned i h =
      size-owned b sys (layout_of elem align v.cap) vec.is_layout c.mmap m v.ptr i
        (vec.held (omega arith)) (omega arith)

  -- The whole block is owned.
  pub extent-owned : (a : ℕ) → within v.ptr (extent c s elem align v) a ≡ true → m.owner a ≢ free
  extent-owned a h = elim (Bool-cases (v.cap * elem == 0)) [
    | inl empty ↦ absurd (
        ground (
          arith,
          h,
          extent-none b s c.mmap (layout_of elem align v.cap) v.ptr a ((==_iff _ 0).0 empty),
        ))
    | inr full ↦
        block-owned c s c.mmap (layout_of elem align v.cap) m v.ptr a
          (vec.held (ground (arith, full))) h
  ]

  pub mapped :
      c.mmap ≡ true
      → uses_mmap c (v.cap * elem) ≡ true
      → MappedBlock c s m v.ptr (layout_of elem align v.cap)
        × (extent c s elem align v ≡ mapped_size c (v.cap * elem))
  mapped on large =
      held-Mapped c s c.mmap (layout_of elem align v.cap) m v.ptr on large
        (vec.held (mapped-enough b sys (layout_of elem align v.cap) vec.is_layout large).1)

  -- Whole pages of the kernel, where its page is no larger than the units of `mapped_size`.
  pub extent-whole :
      sys.page_bits ≤ b.bits
      → sys.page_bits ≤ 30
      → c.mmap ≡ true
      → uses_mmap c (v.cap * elem) ≡ true
      → (extent c s elem align v % s.page_size ≡ 0) × (extent c s elem align v ≤ 2 ^ 63)
  extent-whole small gigantic on large =
      let e = (mapped on large).1 in
      rw e (
        mapped-whole b sys small gigantic (layout_of elem align v.cap) vec.is_layout large,
        mapped_size-le b _ large (omega (arith, vec.is_layout.room)),
      )
