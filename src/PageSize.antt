-- ===== src/PageSize.antt =====
-- src/mmap_alloc.rs: which sizes are mapped, and how a size is rounded to pages.
pub mod Laws
mod Tests
use vec.Base.{ℕ, ◌-◌, ◌^◌, ◌*◌, Bool, true, false, ◌&&◌, bit_and, leb, ◌==◌, if◌then◌else◌}
use vec.Base.Usize.{usize_add, usize_sub, usize_not}
use vec.Build.{Config}

abbrev pub gigantic_page : ℕ
gigantic_page = 1024 * 1024 * 1024

-- `(size + unit - 1) & !(unit - 1)`
unfoldable pub round_to : ℕ → ℕ → ℕ
round_to unit size = bit_and (usize_sub (usize_add size unit) 1) (usize_not (usize_sub unit 1))

module _ (c : Config) where
  unfoldable pub uses_mmap : ℕ → Bool
  uses_mmap size = leb c.huge_page size

  unfoldable pub uses_giant_pages : ℕ → Bool
  uses_giant_pages size = if c.giant_pages then leb gigantic_page size else false

  abbrev huge_or_rounded : ℕ → ℕ
  huge_or_rounded rounded = if rounded == 0 then c.huge_page else rounded

  unfoldable pub mapped_size : ℕ → ℕ
  mapped_size size =
      if c.giant_pages && leb gigantic_page size
      then round_to gigantic_page size
      else huge_or_rounded (round_to c.huge_page size)
