-- ===== src/PageAligned.antt =====
-- src/page_aligned.rs: which lengths of a vector fill whole pages.
mod Gcd
pub mod Laws
mod Tests
use vec.Base.{
  ℕ, ◌+◌, ◌-◌, ◌*◌, ◌/◌, ◌%◌, Option, none, some, Bool, true, false, ◌&&◌, not, bit_and, leb, ◌==◌,
  if◌then◌else◌,
}
use vec.Base.Usize.{usize_mod, usize_sub}
use vec.Build.{Config}
use vec.PageSize.{uses_mmap}
use vec.PageAligned.Gcd.{gcd}

-- What the trait reads of a `Vec64<T>`: its length, its capacity and the size of `T`.
pub record Shape : Type 0 where
  pub elem : ℕ
  pub len : ℕ
  pub cap : ℕ

module _ (c : Config) where
  pub step_rows_inner : ℕ → Option ℕ
  unfolding gcd
  step_rows_inner elem =
      if not c.mmap
      then none
      else if elem == 0
      then none
      else some (c.huge_page / gcd elem c.huge_page)

  pub page_align_t_step : ℕ → Option ℕ
  page_align_t_step elem = step_rows_inner elem

  abbrev times_eight : Option ℕ → Option ℕ
  times_eight none = none
  times_eight (some n) = some (n * 8 % usize_mod)

  pub page_align_bitmask_step : Option ℕ
  page_align_bitmask_step = times_eight (step_rows_inner 1)

  -- The products are sizes of the allocation, which fit.
  unfoldable pub is_page_aligned : Shape → Bool
  unfolding uses_mmap
  is_page_aligned v =
      c.mmap
      && not (v.elem == 0)
      && v.cap == v.len
      && uses_mmap c (v.cap * v.elem)
      && bit_and (v.len * v.elem) (usize_sub c.huge_page 1) == 0

  abbrev next_multiple : ℕ → Option ℕ → Option ℕ
  next_multiple len none = none
  next_multiple len (some step) = some (if len % step == 0 then len else len + (step - len % step))

  abbrev prev_multiple : ℕ → Option ℕ → Option ℕ
  prev_multiple len none = none
  prev_multiple len (some step) = some (len / step * step)

  abbrev minus : ℕ → Option ℕ → Option ℕ
  minus len none = none
  minus len (some n) = some (n - len)

  pub next_page_aligned_len : Shape → Option ℕ
  unfolding page_align_t_step
  next_page_aligned_len v = next_multiple v.len (page_align_t_step v.elem)

  pub prev_page_aligned_len : Shape → Option ℕ
  unfolding page_align_t_step
  prev_page_aligned_len v = prev_multiple v.len (page_align_t_step v.elem)

  pub aligned_len_step : Shape → Option ℕ
  unfolding next_page_aligned_len
  aligned_len_step v = minus v.len (next_page_aligned_len v)
