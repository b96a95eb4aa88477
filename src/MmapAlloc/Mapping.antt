-- ===== src/MmapAlloc/Mapping.antt =====
-- Fresh mappings: what `do_mmap` and the hint leave, and the blocks they make.
use vec.Base.{
  ℕ, ◌%◌, ◌≤◌, ◌<◌, ◌≡◌, ◌≢◌, inl, inr, ◌∙◌, Option, none, some, true, false, within, arith, leb,
  ◌==◌, Bool-cases, ◌&&◌, leb→le,
}
use vec.Build.{Config, IsBuilt}
use vec.PageSize.{gigantic_page, uses_mmap, uses_giant_pages, mapped_size}
use vec.PageSize.Laws.{pow-mod-pow, unit, mapped_size-IsRounded, huge_page-bounds}
use vec.Machine.{free, Layout, Mem, Sys, map_failed}
use vec.Machine.Effect.{Unchanged, Mapped, IsSys, Zeros}
use vec.Allocator.{IsLayout, Allocated}
use vec.Alloc64.Heap.{Unchanged-refl}
use vec.MmapAlloc.{do_mmap, hint_thp, flags}
use vec.MmapAlloc.Hybrid.{hybrid, either}
use native.Mathlib.Nat.{mod-eq-zero_of_dvd, dvd_of_mod-eq-zero, dvd_trans}

-- A failed `mmap` has changed nothing.
abbrev pub Got : Mem → (ℕ → Mem → Type 0) → Option ℕ × Mem → Type 0
Got m P (none, m1) = Unchanged m m1
Got m P (some p, m1) = P p m1

pub mod_trans : (n m k : ℕ) → k % m ≡ 0 → m % n ≡ 0 → k % n ≡ 0
mod_trans n m k h g =
    mod-eq-zero_of_dvd n (dvd_trans n (dvd_of_mod-eq-zero n g) (dvd_of_mod-eq-zero m h))

nonzero : (p : ℕ) → 0 < p → (p == 0) ≡ false
nonzero p h = ground arith

module _ {c : Config} (b : IsBuilt c) {s : Sys} (sys : IsSys s) where
  -- A page of the kernel is 64 bytes at least.
  pub page-aligned : (p : ℕ) → p % s.page_size ≡ 0 → p % 64 ≡ 0
  page-aligned p h =
      mod_trans 64 s.page_size p h
        (rw sys.page_is (pow-mod-pow 6 sys.page_bits (omega (arith, sys.page_least))))

  pub mapped-enough :
      (l : Layout)
      → IsLayout l
      → uses_mmap c l.size ≡ true
      → (l.size ≤ mapped_size c l.size) × (0 < l.size)
  unfolding uses_mmap
  mapped-enough l v on =
      let large = leb→le c.huge_page l.size on in
      let pos : 0 < l.size = omega (arith, huge_page-bounds b) in
      ((mapped_size-IsRounded b l.size pos (omega (arith, v.room))).enough, pos)

  -- Where the kernel's page is no larger than the units of `mapped_size`, a mapping is whole pages.
  pub mapped-whole :
      sys.page_bits ≤ b.bits
      → sys.page_bits ≤ 30
      → (l : Layout) → IsLayout l
      → uses_mmap c l.size ≡ true
      → mapped_size c l.size % s.page_size ≡ 0
  mapped-whole small gigantic l v on =
      mod_trans s.page_size (unit c l.size) (mapped_size c l.size)
        ((mapped_size-IsRounded b l.size (mapped-enough l v on).1 (omega (arith, v.room))).whole)
        (elim (Bool-cases (c.giant_pages && leb gigantic_page l.size)) [
          | inl giant ↦ rw (giant, sys.page_is) (pow-mod-pow sys.page_bits 30 gigantic)
          | inr huge ↦ rw (huge, sys.page_is, b.power) (pow-mod-pow sys.page_bits b.bits small)
        ])

  pub do_mmap-Got :
      (original n : ℕ) (m : Mem)
      → s.Ok m
      → 0 < n
      → Got m (λ p m1. Mapped s.page_size m m1 p n × s.Ok m1) (do_mmap c s original n m)
  unfolding do_mmap
  do_mmap-Got original n m ok pos =
      let lem = sys.mmap_lem (flags c s original) n m ok pos in
      elim (Bool-cases ((s.mmap (flags c s original) n m).0 == map_failed)) [
        | inl failed ↦ rw failed (rw failed at lem)
        | inr fine ↦
            let got = (rw fine at lem) in
            rw (fine, nonzero ((s.mmap (flags c s original) n m).0) got.nonnull)
              (got, sys.mmap_ok _ n m ok)
      ]

  pub hint_thp-Unchanged : (p original n : ℕ) (m : Mem) → Unchanged m (hint_thp c s p original n m)
  unfolding hint_thp
  hint_thp-Unchanged p original n m = elim (Bool-cases (uses_giant_pages c original)) [
    | inl giant ↦ rw giant (Unchanged-refl m)
    | inr huge ↦ rw huge (sys.madvise_huge_lem _ _ m)
  ]

  -- A fresh mapping, after a call that changes nothing, is a block.
  pub Mapped-Allocated :
      {m m1 m2 : Mem} (l : Layout) (p : ℕ)
      → IsLayout l
      → uses_mmap c l.size ≡ true
      → Mapped s.page_size m m1 p (mapped_size c l.size)
      → Unchanged m1 m2
      → Allocated (hybrid c s) m m2 l p (mapped_size c l.size) × Zeros m2 p (mapped_size c l.size)
  Mapped-Allocated {m} {m1} {m2} l p v on map un = (
    record {
      aligned = page-aligned p map.aligned;
      enough = (mapped-enough l v on).0;
      within_extent = rw on (omega arith);
      held =
          rw on
            (record { mapped = λ a h. un.owner a ∙ map.took.owner a ∙ rw h; whole = map.aligned });
      fresh = rw on map.took.fresh;
      owners = rw on (λ a h. un.owner a ∙ map.took.owner a ∙ rw h);
      bytes = λ a h. un.byte a (stays a h) ∙ map.took.byte a h;
      others = λ r x pos.
          either c s m m2 r x
            (λ e h. record {
              at = un.block r ∙ map.blocks r ∙ h.at;
              bytes_held = λ a i. same a (ground (arith, h.bytes_held a i)) ∙ h.bytes_held a i;
            })
            (λ e a i h. same a (ground arith) ∙ h);
    },
    λ a h. un.byte a (taken a h) ∙ map.zeros a h,
  )
    where
      stays : (a : ℕ) → m.owner a ≢ free → m1.owner a ≢ free
      stays a h = ground (arith, map.took.owner a, map.took.fresh a)

      same : (a : ℕ) → m.owner a ≢ free → m2.owner a ≡ m.owner a
      same a h = ground (arith, un.owner a, map.took.owner a, map.took.fresh a)

      taken : (a : ℕ) → within p (mapped_size c l.size) a ≡ true → m1.owner a ≢ free
      taken a h = ground (arith, map.took.owner a)
