-- ===== src/Vec64/New/Slice.antt =====
-- `from_slice` copies a slice.
use vec.Base.{
  ℕ, ◌+◌, ◌*◌, ◌^◌, ◌≤◌, ◌<◌, ◌≡◌, ◌≢◌, refl, subst, ◌∙◌, true, false, ◌||◌, leb, arith, within,
  within-add,
}
use vec.Base.Outcome.{done, ◌>>=◌}
use vec.Build.{Config, IsBuilt}
use vec.Machine.{free, Mem, Sys, copy}
use vec.Machine.Effect.{copy_ok, IsSys}
use vec.Allocator.{IsLayout}
use vec.Vec64.Raw.{RawVec, copy_nonoverlapping}
use vec.Vec64.Held.{layout_of, extent, cap-extent, extent-owned}
use vec.Vec64.Append.Free.{holding-stays}
use vec.Vec64.Append.Elements.{disjoint-leb}
use vec.Vec64.Splice.Kept.{copy-there}
use vec.Vec64.New.{allocate_by, with_capacity, from_slice}
use vec.Vec64.New.Correct.{Made, Making, Making-then, with_capacity-Made}
use vec.Vec64.Chunks.Contents.{contents, read, read-eq}
use native.Mathlib.Nat.{mul-le-mul_right}

-- A new vector of `n` elements whose bytes are those from `src` on.
pub record Copied (c : Config) (s : Sys) (elem align src n : ℕ) (m : Mem) (v : RawVec) (m1 : Mem)
    : Type 0 where
  pub made : Made c s elem align m v m1
  pub len : v.len ≡ n
  pub bytes : contents elem v m1 ≡ read src (n * elem) m

module _ {c : Config} (b : IsBuilt c) {s : Sys} (sys : IsSys s) (small : sys.page_bits ≤ b.bits)
    (gigantic : sys.page_bits ≤ 30) (dangling elem align src n : ℕ) (m : Mem) (ok : s.Ok m)
    (owned : (a : ℕ) → within src (n * elem) a ≡ true → m.owner a ≢ free) where
  module _ (v : RawVec) (m1 : Mem) (made : Made c s elem align m v m1) (room : n ≤ v.cap) where
    bytes-room : n * elem ≤ v.cap * elem
    bytes-room = mul-le-mul_right elem room

    src-apart :
        (a : ℕ) → within v.ptr (extent c s elem align v) a ≡ true → within src (n * elem) a ≡ false
    src-apart a h = ground (arith, made.fresh a h, owned a)

    no_overlap : (leb (src + n * elem) v.ptr || leb (v.ptr + n * elem) src) ≡ true
    no_overlap =
        let at : v.ptr + 0 ≡ v.ptr = omega arith in
        subst (λ p. (leb (src + n * elem) p || leb (p + n * elem) src) ≡ true) at
          (disjoint-leb v.ptr _ src (n * elem) 0 (n * elem) src-apart
            (omega (arith, bytes-room, cap-extent b sys made.vec)) (omega arith))

    abbrev filled : Mem
    filled = copy src v.ptr (n * elem) m1

    target :
        (a : ℕ) → within v.ptr (n * elem) a ≡ true → within v.ptr (extent c s elem align v) a ≡ true
    unfolding within
    target a h = ground (arith, h, bytes-room, cap-extent b sys made.vec)

    outside : (a : ℕ) → m.owner a ≢ free → within v.ptr (n * elem) a ≡ false
    outside a h = ground (arith, h, made.fresh a, target a)

    copied-Made : Made c s elem align m (record v { len = n }) filled
    copied-Made = record {
      vec = record {
        is_layout = made.vec.is_layout;
        in_cap = room;
        held = λ pos.
            holding-stays c s c.mmap m1 filled v.ptr _ refl (λ a h. refl) (made.vec.held pos);
      };
      ok =
          copy_ok sys src v.ptr (n * elem) m1 made.ok
            (λ a h. extent-owned b sys made.vec a (target a h));
      fresh = made.fresh;
      owners = made.owners;
      bytes = λ a h. rw (outside a h) (made.bytes a h);
      others = λ r l pos h.
          holding-stays c s c.mmap m1 filled r l refl (λ a g. refl) (made.others r l pos h);
    }

    pub copied :
        Making
          (allocate_by c.mmap c s (layout_of elem align n) m)
          (Copied c s elem align src n m)
          (copy_nonoverlapping src v.ptr (n * elem) m1 >>= (λ m2. done (record v { len = n }, m2)))
    copied = rw no_overlap (record {
      made = copied-Made;
      len = refl;
      bytes = read-eq src v.ptr (n * elem) m filled (λ i h.
          copy-there src v.ptr (n * elem) i m1 h
          ∙ made.bytes (src + i) (owned (src + i) (within-add src (n * elem) i h)));
    })

  -- `from_slice` makes a vector of the length of the slice, which reads back as the slice did; its block is one that nobody has had, and
  -- nothing else in memory has changed. It panics only where the allocator reports that it is out of memory. The slice belongs to somebody,
  -- and its size is one that `Layout::array` accepts.
  pub from_slice-Copied :
      IsLayout (layout_of elem align n)
      → n < 2 ^ 64
      → Making
          (allocate_by c.mmap c s (layout_of elem align n) m)
          (Copied c s elem align src n m)
          (from_slice dangling c s elem align src n m)
  unfolding from_slice
  from_slice-Copied v word =
      Making-then _ _ (Copied c s elem align src n m) _ (with_capacity dangling c s elem align n m)
        (λ w m1 got. copied w m1 got.0 got.2)
        (with_capacity-Made b sys small gigantic dangling elem align m ok n v word)
