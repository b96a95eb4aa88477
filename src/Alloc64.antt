-- ===== src/Alloc64.antt =====
-- src/alloc64.rs: `Alloc64`, the allocator that raises the alignment of every layout to 64.
pub mod Heap
pub mod Replace
pub mod Correct
mod Tests
use vec.Base.{
  ℕ, ◌+◌, ◌-◌, Option, none, some, Bool, true, false, bit_and, ltb, leb, ◌==◌, ◌^◌, if◌then◌else◌,
}
use vec.Base.Usize.{usize_add, usize_sub, usize_not}
use vec.Build.{Config}
use vec.Allocator.{Fat, Call}
use vec.Machine.{Layout, Mem, Sys, Advice, huge_page, copy}

abbrev pub align_64 : ℕ
align_64 = 64

-- `Layout::from_size_align`; the alignments asked for are powers of two.
abbrev pub from_size_align : ℕ → ℕ → Option Layout
from_size_align size align =
    if leb size (2 ^ 63 - align) then some (record { size = size; align = align }) else none

-- `none` is the panic of `expect`.
unfoldable pub align_layout : Layout → Option Layout
align_layout layout =
    if ltb layout.align align_64 then from_size_align layout.size align_64 else some layout

infixl 5 ◌>>=◌
abbrev pub ◌>>=◌ {ℓ κ} : {A : Type ℓ} {B : Type κ} → Option A → (A → Option B) → Option B
none >>= f = none
some a >>= f = f a

-- `NonNull::new(ptr).map(fat pointer).ok_or(AllocError)`
abbrev pub fat : ℕ → ℕ → Mem → Fat × Mem
fat ptr size m = if ptr == 0 then (none, m) else (some (ptr, size), m)

module _ (c : Config) (s : Sys) where
  -- The hint covers the pages that the block touches.
  unfoldable pub hint_hugepage : ℕ → ℕ → Mem → Mem
  hint_hugepage ptr size m =
      let mask = usize_not (usize_sub s.page_size 1) in
      let start = bit_and ptr mask in
      let end = bit_and (usize_sub (usize_add (usize_add ptr size) s.page_size) 1) mask in
      if c.thp then s.madvise start (usize_sub end start) huge_page m else m

  -- `NonNull::new(ptr).map(hint, fat pointer).ok_or(AllocError)`
  unfoldable pub hinted : ℕ → ℕ → Mem → Fat × Mem
  unfolding hint_hugepage
  hinted ptr size m = if ptr == 0 then (none, m) else (some (ptr, size), hint_hugepage ptr size m)

  unfoldable pub allocate : Layout → Mem → Call
  unfolding hinted align_layout
  allocate layout m = do
    l ← align_layout layout
    let (ptr, m') = s.alloc l m
    some (hinted ptr l.size m')

  unfoldable pub allocate_zeroed : Layout → Mem → Call
  unfolding hinted align_layout
  allocate_zeroed layout m = do
    l ← align_layout layout
    let (ptr, m') = s.alloc_zeroed l m
    some (hinted ptr l.size m')

  unfoldable pub deallocate : ℕ → Layout → Mem → Option Mem
  unfolding align_layout
  deallocate ptr layout m = do l ← align_layout layout; some (s.dealloc ptr l m)

  unfoldable pub grow : ℕ → Layout → Layout → Mem → Call
  unfolding hinted align_layout
  grow ptr old new m = do
    new ← align_layout new
    old ← align_layout old
    let (raw, m') = s.realloc ptr old new.size m
    some (hinted raw new.size m')

  unfoldable pub shrink : ℕ → Layout → Layout → Mem → Call
  unfolding align_layout
  shrink ptr old new m = do
    new ← align_layout new
    old ← align_layout old
    let (raw, m') = s.realloc ptr old new.size m
    some (fat raw new.size m')

  -- Copy the old bytes into the new block and free the old one.
  abbrev pub replace : ℕ → Layout → Fat × Mem → Call
  replace ptr old (none, m) = some (none, m)
  replace ptr old (some (q, n), m) = do
    m' ← deallocate ptr old (copy ptr q old.size m)
    some (some (q, n), m')

  unfoldable pub grow_zeroed : ℕ → Layout → Layout → Mem → Call
  unfolding allocate_zeroed deallocate
  grow_zeroed ptr old new m = do block ← allocate_zeroed new m; replace ptr old block
