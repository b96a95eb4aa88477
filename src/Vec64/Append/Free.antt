-- ===== src/Vec64/Append/Free.antt =====
-- Giving back the buffer of a vector, and the blocks that stay held meanwhile.
use vec.Base.{
  ℕ, ◌*◌, ◌≤◌, ◌<◌, ◌≡◌, ◌≢◌, refl, Option, none, some, Bool, true, false, within, arith, ◌==◌,
  Bool-cases, inl, inr,
}
use vec.Base.Outcome.{Returns, Returns-map}
use vec.Build.{Config, IsBuilt}
use vec.PageSize.{uses_mmap}
use vec.Machine.{free, Layout, Mem, Sys}
use vec.Machine.Effect.{IsSys}
use vec.Allocator.{IsLayout, Deallocated, Completes}
use vec.Alloc64.Heap.{align_layout-raised, raised, stays_held}
use vec.Alloc64.Correct.{deallocate-Deallocated}
use vec.MmapAlloc.Hybrid.{still_held}
use vec.MmapAlloc.Fresh.{deallocate-hybrid}
use vec.Vec64.Raw.{RawVec}
use vec.Vec64.Held.{
  extent-none, holding_by, holding, layout_of, IsVec, extent, size-extent, cap-extent,
}
use vec.Vec64.Append.{deallocate_by, unwrap, free_buffer}
use vec.Alloc64
use vec.MmapAlloc

-- A block stays held when its entry and its owners are as before.
pub holding-stays :
    (c : Config) (s : Sys) (on : Bool) (m m1 : Mem) (r : ℕ) (l : Layout)
    → m1.block r ≡ m.block r
    → ((a : ℕ) → within r ((holding_by on c s).extent l) a ≡ true → m1.owner a ≡ m.owner a)
    → (holding_by on c s).Holds m r l
    → (holding_by on c s).Holds m1 r l
holding-stays c s true m m1 r l e o h = still_held c s m m1 r l (λ off. e) o h
holding-stays c s false m m1 r l e o h = stays_held r l e o h

Completes-unwrap : (P : Mem → Type 0) (o : Option Mem) → Completes P o → Returns P (unwrap o)
Completes-unwrap P none h = h
Completes-unwrap P (some m) h = h

Completes-both :
    (P Q : Mem → Type 0) (o : Option Mem)
    → Completes P o
    → Completes Q o
    → Completes (λ m. P m × Q m) o
Completes-both P Q none h g = h
Completes-both P Q (some m) h g = (h, g)

-- The block of `l` at `r` has no byte in common with that of a vector.
abbrev pub Clear : Config → Sys → (elem align : ℕ) → RawVec → ℕ → Layout → Type 0
Clear c s elem align v r l =
    (a : ℕ)
    → within r ((holding c s).extent l) a ≡ true
    → within v.ptr (extent c s elem align v) a ≡ false

-- The block of a vector, where it has one, is free; everything else is as before.
pub record Freed (c : Config) (s : Sys) (elem align : ℕ) (w : RawVec) (m m1 : Mem) : Type 0 where
  pub released : (a : ℕ) → within w.ptr (extent c s elem align w) a ≡ true → m1.owner a ≡ free
  pub owners : (a : ℕ) → within w.ptr (extent c s elem align w) a ≡ false → m1.owner a ≡ m.owner a
  pub bytes :
      (a : ℕ)
      → m.owner a ≢ free
      → within w.ptr (extent c s elem align w) a ≡ false
      → m1.byte a ≡ m.byte a
  pub others :
      (r : ℕ) (l : Layout)
      → 0 < l.size
      → IsLayout l
      → Clear c s elem align w r l
      → (holding c s).Holds m r l
      → (holding c s).Holds m1 r l
  pub ok : s.Ok m1

module _ {c : Config} (b : IsBuilt c) {s : Sys} (sys : IsSys s) (small : sys.page_bits ≤ b.bits)
    (gigantic : sys.page_bits ≤ 30) where
  deallocate_by-Deallocated :
      (on : Bool) (p : ℕ) (l : Layout) (m : Mem)
      → IsLayout l
      → s.Ok m
      → (holding_by on c s).Holds m p l
      → Completes (λ m1. Deallocated (holding_by on c s) m m1 p l) (deallocate_by on c s p l m)
  deallocate_by-Deallocated true p l m v ok held =
      deallocate-hybrid b sys p l m small gigantic v ok held
  deallocate_by-Deallocated false p l m v ok held = deallocate-Deallocated c sys p l m v ok held

  deallocate_by_ok :
      (on : Bool) (p : ℕ) (l : Layout) (m : Mem)
      → IsLayout l
      → s.Ok m
      → Completes s.Ok (deallocate_by on c s p l m)
  unfolding MmapAlloc.deallocate MmapAlloc.heap_dealloc Alloc64.deallocate
  deallocate_by_ok true p l m v ok = elim (Bool-cases (uses_mmap c l.size)) [
    | inl large ↦ rw large (sys.munmap_ok _ _ m ok)
    | inr little ↦ rw (little, align_layout-raised v) (sys.dealloc_ok p (raised l) m ok)
  ]
  deallocate_by_ok false p l m v ok = rw (align_layout-raised v) (sys.dealloc_ok p (raised l) m ok)

  -- Two blocks without a common byte do not start at the same address.
  pub apart_ne :
      (p n q k : ℕ) → 0 < n → 0 < k → ((a : ℕ) → within p n a ≡ true → within q k a ≡ false) → p ≢ q
  unfolding within
  apart_ne p n q k h g apart e = ground (arith, apart p)

  pub free_buffer-Freed :
      (elem align : ℕ) (w : RawVec) (m : Mem)
      → IsVec c s elem align w m
      → s.Ok m
      → Returns (Freed c s elem align w m) (free_buffer c s elem align w m)
  unfolding free_buffer
  free_buffer-Freed elem align w m vec ok = elim (Bool-cases (w.cap * elem == 0)) [
    | inl empty ↦ rw empty (record {
      released = λ a h. absurd (ground (arith, h, nothing a empty));
      owners = λ a h. refl;
      bytes = λ a h g. refl;
      others = λ r x pos v away h. h;
      ok = ok;
    })
    | inr full ↦
        let l = layout_of elem align w.cap in
        let pos_w : 0 < w.cap * elem = ground (arith, full) in
        rw full (
          Returns-map
            (λ m1 both. record {
              released = both.0.released;
              owners = both.0.owners;
              bytes = both.0.bytes;
              others = λ r x pos v away h.
                  both.0.others r x pos
                    (apart_ne r _ w.ptr _ (omega (arith, size-extent b sys x v c.mmap))
                      (omega (arith, cap-extent b sys vec)) away)
                    away h;
              ok = both.1;
            })
            (unwrap (deallocate_by c.mmap c s w.ptr l m))
            (Completes-unwrap (λ m1. Deallocated (holding c s) m m1 w.ptr l × s.Ok m1)
              (deallocate_by c.mmap c s w.ptr l m)
              (Completes-both _ _ (deallocate_by c.mmap c s w.ptr l m)
                (deallocate_by-Deallocated c.mmap w.ptr l m vec.is_layout ok (vec.held pos_w))
                (deallocate_by_ok c.mmap w.ptr l m vec.is_layout ok))))
  ]
    where
      nothing :
          (a : ℕ)
          → (w.cap * elem == 0) ≡ true
          → within w.ptr ((holding c s).extent (layout_of elem align w.cap)) a ≡ false
      nothing a e = extent-none b s c.mmap (layout_of elem align w.cap) w.ptr a (ground (arith, e))
