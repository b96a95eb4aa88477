-- ===== src/Machine.antt =====
-- What the crate calls and does not implement: the system allocator behind `std::alloc` and the
-- kernel behind `libc`, over a memory of bytes. Both are a parameter, `Sys`; `IsSys` states the
-- documented behaviour that the crate relies on.
pub mod Effect
pub mod Toy
use vec.Base.{
  ℕ, ◌+◌, ◌-◌, ◌^◌, ◌%◌, ◌≤◌, ◌<◌, ◌≡◌, ◌≢◌, Option, none, some, Bool, true, false, within,
  if◌then◌else◌,
}

-- What an address belongs to.
pub data Use : Type 0 where
  free heaped paged : Use

-- `core::alloc::Layout`
pub record Layout : Type 0 where
  pub size : ℕ
  pub align : ℕ

-- The bytes, what they belong to, the live heap blocks with the layout that each was allocated
-- under, and the rest of the state of the kernel and the heap.
pub record Mem : Type 0 where
  pub byte : ℕ → ℕ
  pub owner : ℕ → Use
  pub block : ℕ → Option Layout
  pub world : ℕ

-- `mmap` with `MAP_PRIVATE | MAP_ANONYMOUS`, and with `MAP_HUGETLB | MAP_HUGE_1GB` besides.
pub data MapFlags : Type 0 where
  anonymous anonymous_1gb : MapFlags

-- `MREMAP_MAYMOVE`, with `MREMAP_FIXED`, and with `MREMAP_DONTUNMAP` besides, to a destination.
pub data RemapFlags : Type 0 where
  may_move : RemapFlags
  fixed : (dst : ℕ) → RemapFlags
  fixed_dont_unmap : (dst : ℕ) → RemapFlags

pub data Advice : Type 0 where
  huge_page lazy_free : Advice  -- `MADV_HUGEPAGE`, `MADV_FREE`

-- A null pointer is 0; `MAP_FAILED` is the largest address.
abbrev pub map_failed : ℕ
map_failed = 2 ^ 64 - 1

pub record Sys : Type 1 where
  -- What the heap and the kernel keep true of their own state.
  pub Ok : Mem → Type 0
  pub page_size : ℕ
  pub alloc : Layout → Mem → ℕ × Mem
  pub alloc_zeroed : Layout → Mem → ℕ × Mem
  pub dealloc : ℕ → Layout → Mem → Mem
  pub realloc : ℕ → Layout → ℕ → Mem → ℕ × Mem
  pub mmap : MapFlags → ℕ → Mem → ℕ × Mem
  pub munmap : ℕ → ℕ → Mem → Mem
  pub mremap : ℕ → ℕ → ℕ → RemapFlags → Mem → ℕ × Mem
  pub madvise : ℕ → ℕ → Advice → Mem → Mem

-- `ptr::copy_nonoverlapping`, and `ptr::copy`, which reads all before it writes.
abbrev pub copy : (src dst n : ℕ) → Mem → Mem
copy src dst n m = record m {
  byte = λ a. if within dst n a then m.byte (src + (a - dst)) else m.byte a;
}
