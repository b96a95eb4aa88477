-- ===== src/Machine/Effect.antt =====
-- The effects that the documentation of `std::alloc`, mmap(2), munmap(2), mremap(2) and madvise(2)
-- promises, and the record of them that a system satisfies.
use vec.Base.{
  refl, arith, ◌-◌, ℕ, ◌+◌, ◌^◌, ◌%◌, ◌≤◌, ◌<◌, ◌≡◌, ◌≢◌, ◌⊎◌, none, some, Bool, true, false,
  within, if◌then◌else◌, ◌==◌,
}
use vec.Machine.{
  Use, free, heaped, paged, Layout, Mem, MapFlags, RemapFlags, may_move, fixed, fixed_dont_unmap,
  Advice, huge_page, lazy_free, map_failed, Sys, copy,
}

-- Nothing that belongs to anybody has changed.
pub record Unchanged (m m' : Mem) : Type 0 where
  pub owner : (a : ℕ) → m'.owner a ≡ m.owner a
  pub block : (q : ℕ) → m'.block q ≡ m.block q
  pub byte : (a : ℕ) → m.owner a ≢ free → m'.byte a ≡ m.byte a

-- The `n` bytes from `p` on, free before, now belong to `u`.
pub record Took (u : Use) (m m' : Mem) (p n : ℕ) : Type 0 where
  pub fresh : (a : ℕ) → within p n a ≡ true → m.owner a ≡ free
  pub owner : (a : ℕ) → m'.owner a ≡ (if within p n a then u else m.owner a)
  pub byte : (a : ℕ) → m.owner a ≢ free → m'.byte a ≡ m.byte a

-- The `n` bytes from `p` on are given back.
pub record Dropped (m m' : Mem) (p n : ℕ) : Type 0 where
  pub owner : (a : ℕ) → m'.owner a ≡ (if within p n a then free else m.owner a)
  pub byte : (a : ℕ) → m.owner a ≢ free → within p n a ≡ false → m'.byte a ≡ m.byte a

-- The `n` bytes from `p` on have become `k` bytes from `q` on, with what fits of their contents.
pub record Moved (u : Use) (m m' : Mem) (p n q k : ℕ) : Type 0 where
  pub fresh : (a : ℕ) → within q k a ≡ true → (m.owner a ≡ free) ⊎ (within p n a ≡ true)
  pub owner :
      (a : ℕ) → m'.owner a ≡ (if within q k a then u else if within p n a then free else m.owner a)
  pub byte : (a : ℕ) → m.owner a ≢ free → within p n a ≡ false → m'.byte a ≡ m.byte a
  pub kept : (i : ℕ) → i < n → i < k → m'.byte (q + i) ≡ m.byte (p + i)

abbrev pub BlockAt : Mem → ℕ → Layout → Type 0
BlockAt m p l = m.block p ≡ some l

-- The block of `l` at `p` is on record.
abbrev pub Registers : Mem → Mem → ℕ → Layout → Type 0
Registers m m' p l = (q : ℕ) → m'.block q ≡ (if q == p then some l else m.block q)

abbrev pub Zeros : Mem → ℕ → ℕ → Type 0
Zeros m p n = (a : ℕ) → within p n a ≡ true → m.byte a ≡ 0

abbrev pub SameBlocks : Mem → Mem → Type 0
SameBlocks m m' = (q : ℕ) → m'.block q ≡ m.block q

-- `alloc` and `alloc_zeroed`
pub record Alloced (m m' : Mem) (l : Layout) (p : ℕ) : Type 0 where
  pub took : Took heaped m m' p l.size
  pub registers : Registers m m' p l
  pub aligned : p % l.align ≡ 0

pub record Realloced (m m' : Mem) (p : ℕ) (l : Layout) (q k : ℕ) : Type 0 where
  pub moved : Moved heaped m m' p l.size q k
  pub registers :
      (r : ℕ)
      → m'.block r ≡ (
          if r == q
          then some (record { size = k; align = l.align })
          else if r == p
          then none
          else m.block r)
  pub aligned : q % l.align ≡ 0

pub record Mapped (page : ℕ) (m m' : Mem) (p n : ℕ) : Type 0 where
  pub took : Took paged m m' p n
  pub blocks : SameBlocks m m'
  pub zeros : Zeros m' p n
  pub aligned : p % page ≡ 0
  pub nonnull : 0 < p

pub record Remapped (page : ℕ) (m m' : Mem) (p n q k : ℕ) : Type 0 where
  pub moved : Moved paged m m' p n q k
  pub blocks : SameBlocks m m'
  pub grown : (i : ℕ) → n ≤ i → i < k → m'.byte (q + i) ≡ 0
  pub aligned : q % page ≡ 0
  pub nonnull : 0 < q

-- The `n` bytes from `p` on have replaced those from `d` on, and the source now belongs to `left`.
pub record Placed (left : Use) (m m' : Mem) (p n d : ℕ) : Type 0 where
  pub owner :
      (a : ℕ)
      → m'.owner a ≡ (if within d n a then paged else if within p n a then left else m.owner a)
  pub byte :
      (a : ℕ)
      → m.owner a ≢ free
      → within p n a ≡ false
      → within d n a ≡ false
      → m'.byte a ≡ m.byte a
  pub moved : (i : ℕ) → i < n → m'.byte (d + i) ≡ m.byte (p + i)
  pub blocks : (q : ℕ) → m'.block q ≡ m.block q

-- The contents of the `n` bytes from `p` on may be gone; they are still mapped.
pub record Lapsed (m m' : Mem) (p n : ℕ) : Type 0 where
  pub owner : (a : ℕ) → m'.owner a ≡ m.owner a
  pub byte : (a : ℕ) → m.owner a ≢ free → within p n a ≡ false → m'.byte a ≡ m.byte a
  pub blocks : (q : ℕ) → m'.block q ≡ m.block q

-- Two ranges of `n` bytes have no address in common.
abbrev pub Apart : ℕ → ℕ → ℕ → Type 0
Apart p d n = (a : ℕ) → within p n a ≡ true → within d n a ≡ false

-- The region from `p` on is mapped.
abbrev pub Paged : Mem → ℕ → ℕ → Type 0
Paged m p n = (a : ℕ) → within p n a ≡ true → m.owner a ≡ paged

-- What a call promises when it succeeds, by its result; when it fails, nothing has changed.
abbrev pub Unless : Bool → Mem → Mem → Type 0 → Type 0
Unless true m m' P = Unchanged m m'
Unless false m m' P = P

pub record IsSys (s : Sys) : Type 0 where
  pub page_bits : ℕ
  pub page_is : s.page_size ≡ 2 ^ page_bits
  pub page_least : 12 ≤ page_bits
  pub page_most : page_bits ≤ 63
  -- Writing to bytes that are held does not disturb the heap or the kernel.
  pub store_ok :
      (byte : ℕ → ℕ) (m : Mem)
      → s.Ok m
      → ((a : ℕ) → m.owner a ≡ free → byte a ≡ m.byte a)
      → s.Ok (record m { byte = byte })
  pub alloc_ok : (l : Layout) (m : Mem) → s.Ok m → s.Ok (s.alloc l m).1
  pub alloc_lem :
      (l : Layout) (m : Mem)
      → s.Ok m
      → 0 < l.size
      → let (p, m') = s.alloc l m in Unless (p == 0) m m' (Alloced m m' l p)
  pub alloc_zeroed_ok : (l : Layout) (m : Mem) → s.Ok m → s.Ok (s.alloc_zeroed l m).1
  pub alloc_zeroed_lem :
      (l : Layout) (m : Mem)
      → s.Ok m
      → 0 < l.size
      → let (p, m') = s.alloc_zeroed l m in
        Unless (p == 0) m m' (Alloced m m' l p × Zeros m' p l.size)
  pub dealloc_ok : (p : ℕ) (l : Layout) (m : Mem) → s.Ok m → s.Ok (s.dealloc p l m)
  pub dealloc_lem :
      (p : ℕ) (l : Layout) (m : Mem)
      → s.Ok m
      → BlockAt m p l
      → Dropped m (s.dealloc p l m) p l.size
        × ((q : ℕ) → (s.dealloc p l m).block q ≡ (if q == p then none else m.block q))
  pub realloc_ok : (p : ℕ) (l : Layout) (k : ℕ) (m : Mem) → s.Ok m → s.Ok (s.realloc p l k m).1
  pub realloc_lem :
      (p : ℕ) (l : Layout) (k : ℕ) (m : Mem)
      → s.Ok m
      → BlockAt m p l
      → 0 < k
      → let (q, m') = s.realloc p l k m in Unless (q == 0) m m' (Realloced m m' p l q k)
  pub mmap_ok : (f : MapFlags) (n : ℕ) (m : Mem) → s.Ok m → s.Ok (s.mmap f n m).1
  pub mmap_lem :
      (f : MapFlags) (n : ℕ) (m : Mem)
      → s.Ok m
      → 0 < n
      → let (p, m') = s.mmap f n m in Unless (p == map_failed) m m' (Mapped s.page_size m m' p n)
  pub munmap_ok : (p n : ℕ) (m : Mem) → s.Ok m → s.Ok (s.munmap p n m)
  pub munmap_lem :
      (p n : ℕ) (m : Mem)
      → s.Ok m
      → p % s.page_size ≡ 0
      → n % s.page_size ≡ 0
      → Paged m p n
      → Dropped m (s.munmap p n m) p n × SameBlocks m (s.munmap p n m)
  pub mremap_ok : (p n k : ℕ) (f : RemapFlags) (m : Mem) → s.Ok m → s.Ok (s.mremap p n k f m).1
  pub mremap_lem :
      (p n k : ℕ) (m : Mem)
      → s.Ok m
      → Paged m p n
      → let (q, m') = s.mremap p n k may_move m in
        Unless (q == map_failed) m m' (Remapped s.page_size m m' p n q k)
  pub madvise_ok : (p n : ℕ) (a : Advice) (m : Mem) → s.Ok m → s.Ok (s.madvise p n a m)
  pub madvise_huge_lem : (p n : ℕ) (m : Mem) → Unchanged m (s.madvise p n huge_page m)
  -- `mremap` onto a mapped destination of the same size, both on pages, where it succeeds.
  pub mremap_fixed_lem :
      (p n d : ℕ) (m : Mem)
      → s.Ok m
      → p % s.page_size ≡ 0
      → d % s.page_size ≡ 0
      → n % s.page_size ≡ 0
      → Paged m p n
      → Paged m d n
      → Apart p d n
      → let (q, m') = s.mremap p n n (fixed d) m in
        (q == map_failed) ≡ false → Placed free m m' p n d
  pub mremap_dont_unmap_lem :
      (p n d : ℕ) (m : Mem)
      → s.Ok m
      → p % s.page_size ≡ 0
      → d % s.page_size ≡ 0
      → n % s.page_size ≡ 0
      → Paged m p n
      → Paged m d n
      → Apart p d n
      → let (q, m') = s.mremap p n n (fixed_dont_unmap d) m in
        (q == map_failed) ≡ false → Placed paged m m' p n d × Zeros m' p n
  pub madvise_free_lem :
      (p n : ℕ) (m : Mem)
      → s.Ok m
      → p % s.page_size ≡ 0
      → n % s.page_size ≡ 0
      → Paged m p n
      → Lapsed m (s.madvise p n lazy_free m) p n

-- A failed `mremap` with a fixed destination has left everything as it was, that destination included. mremap(2) does not
-- promise it: a kernel may unmap the destination before it fails.
pub record KeepsTarget (s : Sys) : Type 0 where
  pub fixed_kept :
      (p n d : ℕ) (m : Mem)
      → s.Ok m
      → Paged m d n
      → let (q, m') = s.mremap p n n (fixed d) m in (q == map_failed) ≡ true → Unchanged m m'
  pub dont_unmap_kept :
      (p n d : ℕ) (m : Mem)
      → s.Ok m
      → Paged m d n
      → let (q, m') = s.mremap p n n (fixed_dont_unmap d) m in
        (q == map_failed) ≡ true → Unchanged m m'

pub both-Unless :
    (failed : Bool) (m m' : Mem) (P : Type 0)
    → (failed ≡ true → Unchanged m m')
    → (failed ≡ false → P)
    → Unless failed m m' P
both-Unless true m m' P f g = f refl
both-Unless false m m' P f g = g refl

pub copy_ok :
    {s : Sys} (sys : IsSys s) (src dst n : ℕ) (m : Mem)
    → s.Ok m
    → ((a : ℕ) → within dst n a ≡ true → m.owner a ≢ free)
    → s.Ok (copy src dst n m)
copy_ok sys src dst n m ok owned =
    sys.store_ok (λ a. if within dst n a then m.byte (src + (a - dst)) else m.byte a) m ok
      (λ a e. rw (untouched a e))
  where
    untouched : (a : ℕ) → m.owner a ≡ free → within dst n a ≡ false
    untouched a e = ground (arith, owned a)
