-- ===== src/Allocator.antt =====
-- The contract of `core::alloc::Allocator`, as Rust documents it and `Vec` relies on it: what a
-- client may assume of each operation, for any way to hold blocks.
use vec.Base.{
  ℕ, ◌+◌, ◌-◌, ◌^◌, ◌%◌, ◌≤◌, ◌<◌, ◌≡◌, ◌≢◌, ◌⊎◌, Option, none, some, Bool, true, false, within,
}
use vec.Machine.{free, Layout, Mem}
use vec.Machine.Effect.{Unchanged}

-- What every `Layout` satisfies (`align_is`, `fits`), and that it is not within 63 bytes of the
-- largest size, where raising the alignment panics.
pub record IsLayout (l : Layout) : Type 0 where
  pub bits : ℕ
  pub align_is : l.align ≡ 2 ^ bits
  pub align_most : bits ≤ 62
  pub fits : l.size ≤ 2 ^ 63 - l.align
  pub room : l.size ≤ 2 ^ 63 - 64

-- An address and the length of the block there: `NonNull<[u8]>`, or `AllocError`.
abbrev pub Fat : Type 0
Fat = Option (ℕ × ℕ)

-- What a call ends in; `none` is a panic.
abbrev pub Call : Type 0
Call = Option (Fat × Mem)

-- How an allocator holds the block of a layout: the bytes that it takes, and what the memory says.
pub record Holding : Type 1 where
  pub extent : Layout → ℕ
  pub Holds : Mem → ℕ → Layout → Type 0

module _ (h : Holding) where
  open h use {extent, Holds}

  abbrev pub in_block : ℕ → Layout → ℕ → Bool
  in_block p l a = within p (extent l) a

  -- The blocks that are held beside the one of `l` at `p` are still held.
  abbrev pub Others : Mem → Mem → ℕ → Layout → Type 0
  Others m m' p l =
      (r : ℕ) (b : Layout)
      → 0 < b.size
      → r ≢ p
      → ((a : ℕ) → in_block r b a ≡ true → in_block p l a ≡ false)
      → Holds m r b
      → Holds m' r b

  -- A block of `n` bytes for the layout `l` at `p`. Everything else is as before: bytes, their
  -- owners, and the blocks that are held.
  pub record Allocated (m m' : Mem) (l : Layout) (p n : ℕ) : Type 0 where
    pub aligned : p % 64 ≡ 0
    pub enough : l.size ≤ n
    pub within_extent : n ≤ extent l
    pub held : Holds m' p l
    pub fresh : (a : ℕ) → in_block p l a ≡ true → m.owner a ≡ free
    pub owners : (a : ℕ) → in_block p l a ≡ false → m'.owner a ≡ m.owner a
    pub bytes : (a : ℕ) → m.owner a ≢ free → m'.byte a ≡ m.byte a
    pub others : (r : ℕ) (b : Layout) → 0 < b.size → Holds m r b → Holds m' r b

  -- The block of `old` at `p` has become one of `n` bytes for `new` at `q`. It begins with the `k`
  -- first bytes of the old one; what the new block does not take of the old one is free again; and
  -- nothing else has changed.
  pub record Resized (m m' : Mem) (p : ℕ) (old : Layout) (q : ℕ) (new : Layout) (n k : ℕ)
      : Type 0 where
    pub aligned : q % 64 ≡ 0
    pub enough : new.size ≤ n
    pub within_extent : n ≤ extent new
    pub held : Holds m' q new
    pub kept : (i : ℕ) → i < k → m'.byte (q + i) ≡ m.byte (p + i)
    pub released : (a : ℕ) → in_block p old a ≡ true → in_block q new a ≡ false → m'.owner a ≡ free
    pub owners :
        (a : ℕ) → in_block p old a ≡ false → in_block q new a ≡ false → m'.owner a ≡ m.owner a
    pub disjoint :
        (a : ℕ) → in_block q new a ≡ true → (m.owner a ≡ free) ⊎ (in_block p old a ≡ true)
    pub bytes : (a : ℕ) → m.owner a ≢ free → in_block p old a ≡ false → m'.byte a ≡ m.byte a
    pub others : Others m m' p old

  pub record Deallocated (m m' : Mem) (p : ℕ) (l : Layout) : Type 0 where
    pub released : (a : ℕ) → in_block p l a ≡ true → m'.owner a ≡ free
    pub owners : (a : ℕ) → in_block p l a ≡ false → m'.owner a ≡ m.owner a
    pub bytes : (a : ℕ) → m.owner a ≢ free → in_block p l a ≡ false → m'.byte a ≡ m.byte a
    pub others : Others m m' p l

  -- The outcomes of a call: it does not panic; on `AllocError` nothing has changed, so the caller
  -- still has its old block; on success the postcondition holds.
  abbrev pub Ends : Mem → (ℕ → ℕ → Mem → Type 0) → Call → Type 0
  Ends m P none = ⊥
  Ends m P (some (none, m')) = Unchanged m m'
  Ends m P (some (some (p, n), m')) = P p n m'

-- The bytes past the old block are zero, and those of the old block past its layout are kept or
-- zero, as `Allocator::grow_zeroed` allows.
abbrev pub ZeroedPast : Mem → Mem → (p old_size old_extent q n : ℕ) → Type 0
ZeroedPast m m' p old_size old_extent q n =
    (i : ℕ)
    → old_size ≤ i
    → i < n
    → (m'.byte (q + i) ≡ 0) ⊎ ((i < old_extent) × (m'.byte (q + i) ≡ m.byte (p + i)))

-- The outcome of `deallocate`: it does not panic, and its postcondition holds.
abbrev pub Completes : (Mem → Type 0) → Option Mem → Type 0
Completes P none = ⊥
Completes P (some m') = P m'
