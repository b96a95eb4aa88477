-- ===== src/Vec64/Convert/Taken.antt =====
-- `From<Vec<T>>` moves the elements, and collecting the iterator of a vector gives them back.
use vec.Base.{within-add, ℕ, ◌+◌, ◌*◌, ◌^◌, ◌≤◌, ◌<◌, ◌≡◌, ◌≢◌, ap, ◌∙◌, true, false, within, arith}
use vec.Base.Outcome.{Outcome, done, ◌>>=◌}
use vec.Build.{Config, IsBuilt}
use vec.Machine.{free, Layout, Mem, Sys}
use vec.Machine.Effect.{IsSys}
use vec.Allocator.{IsLayout, Call}
use vec.Vec64.Raw.{RawVec}
use vec.Vec64.Held.{holding, layout_of, IsVec, extent, cap-extent, cap-owned}
use vec.Vec64.New.{allocate_by, with_capacity}
use vec.Vec64.New.Correct.{Made, Making, Making-then, with_capacity-Made}
use vec.Vec64.New.Slice.{Copied, copied}
use vec.Vec64.Append.Tried.{Reserves}
use vec.Vec64.Chunks.Contents.{contents, read-eq}
use vec.Vec64.Convert.{extend_moved, from_vec}
use native.Mathlib.Nat.{mul-le-mul_right}

-- The buffer of a `Vec` of the standard library is free, and everything else is as before.
pub record GaveBack (c : Config) (s : Sys) (elem : ℕ) (w : RawVec) (m m1 : Mem) : Type 0 where
  pub released : (a : ℕ) → within w.ptr (w.cap * elem) a ≡ true → m1.owner a ≡ free
  pub owners : (a : ℕ) → within w.ptr (w.cap * elem) a ≡ false → m1.owner a ≡ m.owner a
  pub bytes :
      (a : ℕ) → m.owner a ≢ free → within w.ptr (w.cap * elem) a ≡ false → m1.byte a ≡ m.byte a
  pub others :
      (r : ℕ) (l : Layout)
      → ((a : ℕ)
          → within r ((holding c s).extent l) a ≡ true
          → within w.ptr (w.cap * elem) a ≡ false)
      → (holding c s).Holds m r l
      → (holding c s).Holds m1 r l
  pub ok : s.Ok m1

abbrev pub Owned : ℕ → RawVec → Mem → Type 0
Owned elem w m = (a : ℕ) → within w.ptr (w.cap * elem) a ≡ true → m.owner a ≢ free

-- What the drop of the `Vec` `w` of the standard library does to its buffer.
abbrev pub Frees : Config → Sys → ℕ → (RawVec → Mem → Mem) → RawVec → Type 0
Frees c s elem free_source w =
    (m : Mem) → s.Ok m → Owned elem w m → GaveBack c s elem w m (free_source w m)

-- A new vector with the elements of `w`, whose buffer is free.
pub record Taken (c : Config) (s : Sys) (elem align : ℕ) (w : RawVec) (m : Mem) (v : RawVec)
    (m1 : Mem) : Type 0 where
  pub len : v.len ≡ w.len
  pub bytes : contents elem v m1 ≡ contents elem w m
  pub vec : IsVec c s elem align v m1
  pub ok : s.Ok m1
  pub fresh : (a : ℕ) → within v.ptr (extent c s elem align v) a ≡ true → m.owner a ≡ free
  pub released : (a : ℕ) → within w.ptr (w.cap * elem) a ≡ true → m1.owner a ≡ free
  pub owners :
      (a : ℕ)
      → within v.ptr (extent c s elem align v) a ≡ false
      → within w.ptr (w.cap * elem) a ≡ false
      → m1.owner a ≡ m.owner a
  pub kept :
      (a : ℕ) → m.owner a ≢ free → within w.ptr (w.cap * elem) a ≡ false → m1.byte a ≡ m.byte a

module _ {c : Config} (b : IsBuilt c) {s : Sys} (sys : IsSys s) (small : sys.page_bits ≤ b.bits)
    (gigantic : sys.page_bits ≤ 30) (reserve : RawVec → ℕ → Mem → Outcome (RawVec × Mem))
    (reserves : Reserves reserve) (free_source : RawVec → Mem → Mem) (dangling elem align : ℕ)
    (w : RawVec) (frees : Frees c s elem free_source w) (m : Mem) (ok : s.Ok m)
    (in_cap : w.len ≤ w.cap) (owned : Owned elem w m) where
  len_bytes : w.len * elem ≤ w.cap * elem
  len_bytes = mul-le-mul_right elem in_cap

  elements-owned : (a : ℕ) → within w.ptr (w.len * elem) a ≡ true → m.owner a ≢ free
  unfolding within
  elements-owned a h = owned a (ground (arith, h, len_bytes))

  abbrev pub call : Call
  call = allocate_by c.mmap c s (layout_of elem align w.len) m

  -- The elements are there, and the source is dropped.
  dropped :
      (v : RawVec) (m2 : Mem)
      → Copied c s elem align w.ptr w.len m v m2
      → Taken c s elem align w m v (free_source w m2)
  dropped v m2 cp =
      let made = cp.made in
      let gone = frees m2 made.ok (λ a h. ground (arith, owned a h, made.fresh a, made.owners a)) in
      let room : (i : ℕ) → i < v.len * elem → i < v.cap * elem =
        λ i h. omega (arith, h, mul-le-mul_right elem made.vec.in_cap) in
      let apart : (i : ℕ) → i < v.cap * elem → within w.ptr (w.cap * elem) (v.ptr + i) ≡ false =
        λ i h. ground (
          arith,
          made.fresh (v.ptr + i)
              (within-add v.ptr _ i (omega (arith, h, cap-extent b sys made.vec))),
          owned (v.ptr + i),
        ) in
      record {
        len = cp.len;
        bytes =
            read-eq v.ptr v.ptr (v.len * elem) m2 (free_source w m2) (λ i h.
              gone.bytes (v.ptr + i) (cap-owned b sys made.vec i (room i h)) (apart i (room i h)))
            ∙ cp.bytes;
        vec = record {
          is_layout = made.vec.is_layout;
          in_cap = made.vec.in_cap;
          held = λ pos.
              gone.others v.ptr (layout_of elem align v.cap)
                (λ a h. ground (arith, made.fresh a h, owned a)) (made.vec.held pos);
        };
        ok = gone.ok;
        fresh = made.fresh;
        released = gone.released;
        owners = λ a h g. gone.owners a g ∙ made.owners a h;
        kept =
            λ a h g. gone.bytes a (ground (arith, made.fresh a, made.owners a)) g ∙ made.bytes a h;
      }

  moved :
      (v : RawVec) (m1 : Mem)
      → Made c s elem align m v m1 × (v.len ≡ 0) × (w.len ≤ v.cap)
      → Making call
          (Copied c s elem align w.ptr w.len m)
          (extend_moved dangling c s elem align reserve free_source v w m1)
  unfolding extend_moved
  moved v m1 (made, empty, room) =
      let at : v.ptr + v.len * elem ≡ v.ptr = ap (λ n. v.ptr + n * elem) empty ∙ omega arith in
      let size : v.len + w.len ≡ w.len = omega (arith, empty) in
      rw (reserves v w.len m1 (omega arith), at, size)
        (copied b sys small gigantic dangling elem align w.ptr w.len m ok elements-owned v m1 made
          room)

  -- `From<Vec<T>>` makes a vector of the same elements in the same order, in a block of the crate's allocator that nobody
  -- had, and the old buffer is free afterwards; the other bytes that belonged to anybody are as they were. It panics only where the
  -- allocator reports that it is out of memory. The old buffer is owned and holds the elements, their size is one
  -- that `Layout::array` accepts, the drop of the old vector frees its buffer and nothing else, and `Vec::reserve`
  -- does nothing where there is room.
  pub from_vec-Taken :
      IsLayout (layout_of elem align w.len)
      → w.len < 2 ^ 64
      → Making call
          (Taken c s elem align w m)
          (from_vec dangling c s elem align reserve free_source w m)
  unfolding from_vec
  from_vec-Taken v word =
      Making-then call _ _
        (λ r.
          extend_moved dangling c s elem align reserve free_source r.0 w r.1
          >>= (λ q. done (q.0, free_source w q.1)))
        (with_capacity dangling c s elem align w.len m)
        (λ v1 m1 got.
          Making-then call _ _ (λ q. done (q.0, free_source w q.1))
            (extend_moved dangling c s elem align reserve free_source v1 w m1) dropped
            (moved v1 m1 got))
        (with_capacity-Made b sys small gigantic dangling elem align m ok w.len v word)
