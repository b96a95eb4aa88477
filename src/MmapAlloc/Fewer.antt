-- ===== src/MmapAlloc/Fewer.antt =====
-- The pages of a mapping that `MAllocPg64::shrink` keeps.
use vec.Base.{◌%◌, ◌≤◌, ◌<◌, ◌≡◌, inl, inr, true, false, arith, Bool-cases, leb→le, ◌&&◌, leb}
use vec.Build.{Config, IsBuilt}
use vec.PageSize.{uses_mmap, mapped_size, gigantic_page}
use vec.PageSize.Laws.{IsRounded-least, mapped_size-IsRounded, unit, gigantic-mod}
use vec.Machine.{Layout, Sys}
use vec.Machine.Effect.{IsSys}
use vec.Allocator.{IsLayout}
use vec.MmapAlloc.Mapping.{mod_trans, mapped-enough}

module _ {c : Config} (b : IsBuilt c) {s : Sys} (sys : IsSys s) (old new : Layout)
    (vo : IsLayout old) (vn : IsLayout new) (pos : 0 < new.size) (le : new.size ≤ old.size)
    (was : uses_mmap c old.size ≡ true) (on : uses_mmap c new.size ≡ true) where
  -- A smaller size has no more pages.
  unit-divides : mapped_size c old.size % unit c new.size ≡ 0
  unfolding uses_mmap
  unit-divides = elim (Bool-cases (c.giant_pages && leb gigantic_page old.size)) [
    | inl large ↦ elim (Bool-cases (c.giant_pages && leb gigantic_page new.size)) [
      | inl giant ↦ rw giant (rw large at whole)
      | inr huge ↦ rw huge (
          mod_trans c.huge_page gigantic_page (mapped_size c old.size) (rw large at whole)
            (gigantic-mod b (below large huge)))
    ]
    | inr huge ↦ rw (not_giant huge) (rw huge at whole)
  ]
    where
      whole : mapped_size c old.size % unit c old.size ≡ 0
      whole =
          (mapped_size-IsRounded b old.size (mapped-enough b sys old vo was).1
            (omega (arith, vo.room))).whole

      below :
          (c.giant_pages && leb gigantic_page old.size) ≡ true
          → (c.giant_pages && leb gigantic_page new.size) ≡ false
          → c.huge_page ≤ gigantic_page
      below h g = ground (arith, leb→le c.huge_page new.size on)

      not_giant :
          (c.giant_pages && leb gigantic_page old.size) ≡ false
          → (c.giant_pages && leb gigantic_page new.size) ≡ false
      not_giant h = ground (arith, le)

  pub mapped-fewer : mapped_size c new.size ≤ mapped_size c old.size
  mapped-fewer =
      IsRounded-least (mapped_size c old.size)
        (mapped_size-IsRounded b new.size pos (omega (arith, vn.room))) unit-divides
        (omega (arith, (mapped-enough b sys old vo was).0))
