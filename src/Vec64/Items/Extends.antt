-- ===== src/Vec64/Items/Extends.antt =====
-- What a vector becomes when bytes are added to it, wherever its block is afterwards.
use vec.Base.{
  ℕ, ◌+◌, ◌<◌, ◌≡◌, ◌≢◌, ◌⊎◌, inr, refl, sym, ap, ◌∙◌, List, [], ◌++◌, true, false, within, arith,
}
use vec.Build.{Config}
use vec.Machine.{free, Layout, Mem, Sys}
use vec.Allocator.{IsLayout}
use vec.Vec64.Raw.{RawVec}
use vec.Vec64.Held.{holding, IsVec, extent, block-owned}
use vec.Vec64.Append.Free.{Clear}
use vec.Vec64.Chunks.Contents.{contents}
use mathlib.Core.List.{append-nil, append_assoc}

-- `n` elements with the bytes `xs` stand after those of `v`. The new block is the old one, or was free, and what it does not
-- take of the old one is free. Everything else is as before.
pub record Extends (c : Config) (s : Sys) (elem align : ℕ) (v : RawVec) (m : Mem) (xs : List ℕ)
    (n : ℕ) (v1 : RawVec) (m1 : Mem) : Type 0 where
  pub len : v1.len ≡ v.len + n
  pub bytes : contents elem v1 m1 ≡ contents elem v m ++ xs
  pub vec : IsVec c s elem align v1 m1
  pub ok : s.Ok m1
  pub taken :
      (a : ℕ)
      → within v1.ptr (extent c s elem align v1) a ≡ true
      → (m.owner a ≡ free) ⊎ (within v.ptr (extent c s elem align v) a ≡ true)
  pub released :
      (a : ℕ)
      → within v.ptr (extent c s elem align v) a ≡ true
      → within v1.ptr (extent c s elem align v1) a ≡ false
      → m1.owner a ≡ free
  pub owners :
      (a : ℕ)
      → within v.ptr (extent c s elem align v) a ≡ false
      → within v1.ptr (extent c s elem align v1) a ≡ false
      → m1.owner a ≡ m.owner a
  pub kept :
      (a : ℕ)
      → m.owner a ≢ free
      → within v.ptr (extent c s elem align v) a ≡ false
      → m1.byte a ≡ m.byte a
  pub others :
      (r : ℕ) (l : Layout)
      → 0 < l.size
      → IsLayout l
      → Clear c s elem align v r l
      → (holding c s).Holds m r l
      → (holding c s).Holds m1 r l

module _ {c : Config} {s : Sys} {elem align : ℕ} where
  pub Extends-refl :
      (v : RawVec) (m : Mem)
      → IsVec c s elem align v m
      → s.Ok m
      → Extends c s elem align v m [] 0 v m
  Extends-refl v m vec ok = record {
    len = omega arith;
    bytes = sym (append-nil (contents elem v m));
    vec = vec;
    ok = ok;
    taken = λ a h. inr h;
    released = λ a h g. cc;
    owners = λ a h g. refl;
    kept = λ a h g. refl;
    others = λ r l pos vl h g. g;
  }

  pub Extends-trans :
      (v : RawVec) (m : Mem) (xs : List ℕ) (n : ℕ) (v1 : RawVec) (m1 : Mem) (ys : List ℕ) (k : ℕ)
      (v2 : RawVec) (m2 : Mem)
      → Extends c s elem align v m xs n v1 m1
      → Extends c s elem align v1 m1 ys k v2 m2
      → Extends c s elem align v m (xs ++ ys) (n + k) v2 m2
  Extends-trans v m xs n v1 m1 ys k v2 m2 f g = record {
    len = omega (arith, f.len, g.len);
    bytes = g.bytes ∙ ap (λ t. t ++ ys) f.bytes ∙ append_assoc (contents elem v m) xs ys;
    vec = g.vec;
    ok = g.ok;
    taken = λ a h. ground (arith, g.taken a h, f.taken a, f.owners a);
    released = λ a h e. ground (arith, g.released a, f.released a h, g.owners a);
    owners = λ a h e. ground (arith, g.released a, g.owners a, f.owners a h, f.taken a);
    kept = λ a h e.
        let out : within v1.ptr (extent c s elem align v1) a ≡ false = ground (arith, f.taken a) in
        g.kept a (ground (arith, f.owners a e out)) out ∙ f.kept a h e;
    others = λ r l pos vl clear h.
        g.others r l pos vl
          (λ a i. ground (arith, f.taken a, clear a i, block-owned c s c.mmap l m r a h i))
          (f.others r l pos vl clear h);
  }
