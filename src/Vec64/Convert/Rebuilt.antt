-- ===== src/Vec64/Convert/Rebuilt.antt =====
-- A vector taken apart into its items by `IntoIterator` and put together again by `FromIterator`.
use vec.Base.{ℕ, ◌^◌, ◌≤◌, ◌<◌, ◌≡◌, ◌∙◌, length, true, false, within, arith}
use vec.Base.Outcome.{Outcome}
use vec.Build.{Config, IsBuilt}
use vec.Machine.{Mem, Sys}
use vec.Machine.Effect.{IsSys}
use vec.Allocator.{IsLayout, Call}
use vec.Vec64.Raw.{RawVec}
use vec.Vec64.Held.{layout_of, IsVec, extent, extent-owned}
use vec.Vec64.New.{allocate_by}
use vec.Vec64.New.Correct.{Making, Making-map}
use vec.Vec64.Items.{items, from_iter}
use vec.Vec64.Items.Pushed.{IsReserve, flat}
use vec.Vec64.Items.Slices.{items-Sized, length-items, flat-items}
use vec.Vec64.Items.Collecting.{Collected, Collecting, Collecting-Making}
use vec.Vec64.Items.Collected.{from_iter-Collected}
use vec.Vec64.Items.Cloned.{flat-injective}
use vec.Vec64.Convert.{as_ref, into_iter}

-- The items of the vector `v`, in a vector that has no byte in common with it.
pub record Rebuilt (c : Config) (s : Sys) (elem align : ℕ) (v : RawVec) (m : Mem) (v1 : RawVec)
    (m1 : Mem) : Type 0 where
  pub same : as_ref elem v1 m1 ≡ as_ref elem v m
  pub vec : IsVec c s elem align v1 m1
  pub apart :
      (a : ℕ)
      → within v1.ptr (extent c s elem align v1) a ≡ true
      → within v.ptr (extent c s elem align v) a ≡ false

module _ {c : Config} (b : IsBuilt c) {s : Sys} (sys : IsSys s) (small : sys.page_bits ≤ b.bits)
    (gigantic : sys.page_bits ≤ 30) (elem align : ℕ)
    (reserve : RawVec → ℕ → Mem → Outcome (RawVec × Mem)) (law : IsReserve c s elem align reserve)
    (dangling : ℕ) (v : RawVec) (m : Mem) (ok : s.Ok m) (vv : IsVec c s elem align v m) where
  abbrev call : Call
  call = allocate_by c.mmap c s (layout_of elem align v.len) m

  collected :
      (v1 : RawVec) (m1 : Mem)
      → Collected c s elem align
          (flat (items elem v.ptr v.len m))
          (length (items elem v.ptr v.len m))
          m
          v1
          m1
      → Rebuilt c s elem align v m v1 m1
  unfolding as_ref
  collected v1 m1 col = record {
    same =
        flat-injective elem _ _ (items-Sized elem v1.ptr v1.len m1) (items-Sized elem v.ptr v.len m)
          (length-items elem v1.ptr v1.len m1 ∙ col.len)
          (flat-items elem v1.ptr v1.len m1 ∙ col.bytes);
    vec = col.vec;
    apart = λ a h. ground (arith, col.fresh a h, extent-owned b sys vv a);
  }

  -- Only the allocator stops it: the hint of the iterator is exact.
  exact :
      (n : ℕ) (o : Outcome (RawVec × Mem))
      → n ≡ v.len
      → Collecting call v.len n (Collected c s elem align (flat (items elem v.ptr v.len m)) n m) o
      → Making call (Collected c s elem align (flat (items elem v.ptr v.len m)) n m) o
  exact n o e h = Collecting-Making call v.len n _ o (omega (arith, e)) h

  -- Collecting the iterator of a vector gives a vector of the same items in the same order, which has no byte in common with the
  -- old one, whose buffer the iterator has not dropped yet. It panics only where the allocator reports that it is out of memory. The size of the elements is one
  -- that `Layout::array` accepts, and `Vec::reserve` keeps its promise.
  pub into_iter-from_iter :
      IsLayout (layout_of elem align v.len)
      → v.len < 2 ^ 64
      → Making call
          (Rebuilt c s elem align v m)
          (from_iter reserve elem dangling c s align (into_iter elem v m) m)
  unfolding into_iter
  into_iter-from_iter vl word = Making-map call _ _ _ collected (
      exact _ _ (length-items elem v.ptr v.len m) (
        from_iter-Collected b sys small gigantic elem align reserve law dangling m ok
          (into_iter elem v m) (items-Sized elem v.ptr v.len m) vl word))
