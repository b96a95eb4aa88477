-- ===== src/Vec64/Append/Aligned.antt =====
-- `PageAligned` tells which vectors `try_mremap_append` takes over by their pages.
use vec.Base.{
  subst, sym, ℕ, ◌+◌, ◌-◌, ◌*◌, ◌%◌, ◌≤◌, ◌≡◌, none, Bool, true, false, ◌&&◌, ◌||◌, not, bit_and,
  leb, ltb, ◌==◌, if◌then◌else◌, arith,
}
use vec.Base.Bits.{mask-mod}
use vec.Base.Usize.{usize_sub}
use vec.Build.{Config}
use vec.Build.Pow2.{is_power_of_two, is_power_of_two-pow}
use vec.PageSize.{uses_mmap}
use vec.PageAligned.{Shape, is_page_aligned}
use vec.Machine.{Mem, Sys, fixed}
use vec.Machine.Effect.{IsSys}
use vec.Vec64.Raw.{RawVec}
use native.Mathlib.Nat.{one-le-pow}
use vec.Vec64.Append.{appended, try_mremap_append}

-- What `PageAligned` reads of a vector.
abbrev pub shape : ℕ → RawVec → Shape
shape elem w = record { elem = elem; len = w.len; cap = w.cap }

-- There is room, the other vector is page-aligned, and so is the end of this one, which is mapped.
abbrev pub takes_pages : Config → Sys → ℕ → RawVec → RawVec → Bool
takes_pages c s elem v w =
    leb (v.len + w.len) v.cap
    && is_page_aligned c (shape elem w)
    && (v.len * elem) % s.page_size == 0
    && uses_mmap c (v.cap * elem)

-- The guards of the code, one after the other, are one test.
guards {ℓ} :
    {A : Type ℓ} (none_sized full tight whole at large other_large : Bool) (x y : A)
    → (if none_sized
        then y
        else if full
        then y
        else if not tight
        then y
        else if not whole
        then y
        else if not at
        then y
        else if not large || not other_large
        then y
        else x)
      ≡ (if not full && (not none_sized && tight && other_large && whole) && at && large
          then x
          else y)
guards none_sized full tight whole at large other_large x y = ground arith

module _ (c : Config) {s : Sys} (sys : IsSys s) (elem align : ℕ) (v w : RawVec) (m : Mem) where
  -- With the feature `mmap`, `try_mremap_append` asks the kernel to move the pages of the other vector exactly if there is room for its
  -- elements, `is_page_aligned` holds of it, and this vector ends on a page of the kernel and is large enough to be mapped;
  -- otherwise it leaves the memory alone and hands the other vector back. The length of the vector is at most its capacity.
  pub try_mremap_append-is_page_aligned :
      c.mmap ≡ true
      → v.len ≤ v.cap
      → try_mremap_append c s elem align v w m ≡ (
          if takes_pages c s elem v w
          then appended c s elem align v w
              (s.mremap w.ptr (w.len * elem) (w.len * elem) (fixed (v.ptr + v.len * elem)) m)
          else (none, m))
  unfolding try_mremap_append is_page_aligned
  try_mremap_append-is_page_aligned on le =
      let page : (s.page_size == 0 || not (is_power_of_two s.page_size)) ≡ false = ground (
        arith,
        subst (λ n. is_power_of_two n ≡ true) (sym sys.page_is)
            (is_power_of_two-pow sys.page_bits (omega (arith, sys.page_most))),
        sys.page_least,
        sys.page_is,
        one-le-pow sys.page_bits 2,
      ) in
      let room : leb (v.len + w.len) v.cap ≡ not (ltb (v.cap - v.len) w.len) = ground (arith, le) in
      rw
        (
          page,
          room,
          mask-mod sys.page_bits (v.len * elem) s.page_size sys.page_is sys.page_most,
          on,
        )
        (guards (elem == 0) (ltb (v.cap - v.len) w.len) (w.cap == w.len)
          (bit_and (w.len * elem) (usize_sub c.huge_page 1) == 0)
          ((v.len * elem) % s.page_size == 0) (uses_mmap c (v.cap * elem))
          (uses_mmap c (w.cap * elem)) _ (none, m))
