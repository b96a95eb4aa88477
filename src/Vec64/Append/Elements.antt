-- ===== src/Vec64/Append/Elements.antt =====
-- What an append leaves, and that moving the elements one by one leaves it.
use vec.Base.{
  ℕ, ◌+◌, ◌-◌, ◌*◌, ◌≤◌, ◌<◌, ◌≡◌, ◌≢◌, refl, ◌∙◌, true, false, within, within-add, arith, leb,
  ◌||◌,
}
use vec.Base.Outcome.{Outcome, done, Returns, Returns-bind}
use vec.Build.{Config, IsBuilt}
use vec.Machine.{free, Layout, Mem, Sys, copy}
use vec.Machine.Effect.{copy_ok, IsSys}
use vec.Allocator.{IsLayout}
use vec.Vec64.Raw.{RawVec}
use vec.Vec64.Held.{holding, layout_of, IsVec, extent, cap-extent, cap-owned}
use vec.Vec64.Append.{free_buffer, extend}
use vec.Vec64.Append.Free.{Clear, Freed, holding-stays, free_buffer-Freed}
use vec.Vec64.Splice.Kept.{Kept, within-at, within-sup, within-below, copy-Kept, copy-there}
use native.Mathlib.Nat.{add-mul, mul-le-mul_right}

-- A part of one of two ranges without a common address does not overlap a part of the other.
pub disjoint-leb :
    (p n q k x i : ℕ)
    → ((a : ℕ) → within p n a ≡ true → within q k a ≡ false)
    → x + i ≤ n
    → i ≤ k
    → (leb (q + i) (p + x) || leb (p + x + i) q) ≡ true
unfolding within
disjoint-leb p n q k x i apart h g = ground (arith, apart (p + x), apart q)

-- Two vectors have no byte in common.
abbrev pub Separate : Config → Sys → (elem align : ℕ) → RawVec → RawVec → Type 0
Separate c s elem align v w =
    (a : ℕ)
    → within v.ptr (extent c s elem align v) a ≡ true
    → within w.ptr (extent c s elem align w) a ≡ false

-- The elements of `w` stand after those of `v`, and the buffer of `w` is free. Everything else is as
-- before: the bytes of others, their owners, and the blocks that are held.
pub record Appends (c : Config) (s : Sys) (elem align : ℕ) (v w : RawVec) (m : Mem) (v1 : RawVec)
    (m1 : Mem) : Type 0 where
  pub result : v1 ≡ record v { len = v.len + w.len }
  pub old : (i : ℕ) → i < v.len * elem → m1.byte (v.ptr + i) ≡ m.byte (v.ptr + i)
  pub new : (i : ℕ) → i < w.len * elem → m1.byte (v.ptr + v.len * elem + i) ≡ m.byte (w.ptr + i)
  pub vec : IsVec c s elem align v1 m1
  pub ok : s.Ok m1
  pub released : (a : ℕ) → within w.ptr (extent c s elem align w) a ≡ true → m1.owner a ≡ free
  pub owners : (a : ℕ) → within w.ptr (extent c s elem align w) a ≡ false → m1.owner a ≡ m.owner a
  pub bytes :
      (a : ℕ)
      → m.owner a ≢ free
      → within v.ptr (extent c s elem align v) a ≡ false
      → within w.ptr (extent c s elem align w) a ≡ false
      → m1.byte a ≡ m.byte a
  pub others :
      (r : ℕ) (l : Layout)
      → 0 < l.size
      → IsLayout l
      → Clear c s elem align v r l
      → Clear c s elem align w r l
      → (holding c s).Holds m r l
      → (holding c s).Holds m1 r l

module _ {c : Config} (b : IsBuilt c) {s : Sys} (sys : IsSys s) (elem align : ℕ) (v w : RawVec)
    (m : Mem) (vv : IsVec c s elem align v m) (vw : IsVec c s elem align w m)
    (sep : Separate c s elem align v w) (fits : v.len + w.len ≤ v.cap) where
  pub sum_bytes : v.len * elem + w.len * elem ≤ v.cap * elem
  sum_bytes = omega (arith, mul-le-mul_right elem fits, add-mul v.len w.len elem)

  v-inside : (i : ℕ) → i < v.cap * elem → within v.ptr (extent c s elem align v) (v.ptr + i) ≡ true
  v-inside i h = within-add v.ptr _ i (omega (arith, cap-extent b sys vv))

  w-inside : (i : ℕ) → i < w.len * elem → within w.ptr (extent c s elem align w) (w.ptr + i) ≡ true
  w-inside i h =
      within-add w.ptr _ i (omega (arith, cap-extent b sys vw, mul-le-mul_right elem vw.in_cap))

  new-inside :
      (i : ℕ)
      → i < w.len * elem
      → within v.ptr (extent c s elem align v) (v.ptr + v.len * elem + i) ≡ true
  new-inside i h =
      within-at v.ptr (extent c s elem align v) _ (omega arith)
        (omega (arith, sum_bytes, cap-extent b sys vv))

  pub new-owned : (i : ℕ) → i < w.len * elem → m.owner (v.ptr + v.len * elem + i) ≢ free
  new-owned i h =
      let e : v.ptr + v.len * elem + i ≡ v.ptr + (v.len * elem + i) = omega arith in
      ground (arith, e, cap-owned b sys vv (v.len * elem + i) (omega (arith, sum_bytes)))

  pub range-owned :
      (a : ℕ) → within (v.ptr + v.len * elem) (w.len * elem) a ≡ true → m.owner a ≢ free
  unfolding within
  range-owned a h =
      let i = a - (v.ptr + v.len * elem) in
      let e : v.ptr + v.len * elem + i ≡ a = ground arith in
      ground (arith, e, new-owned i (ground arith))

  -- Once the bytes are copied, giving back the buffer is all that is left.
  pub finish :
      (m1 m2 : Mem)
      → Kept (v.ptr + v.len * elem) (w.len * elem) m m1
      → ((i : ℕ) → i < w.len * elem → m1.byte (v.ptr + v.len * elem + i) ≡ m.byte (w.ptr + i))
      → Freed c s elem align w m1 m2
      → Appends c s elem align v w m (record v { len = v.len + w.len }) m2
  finish m1 m2 kept there gone = record {
    result = refl;
    old = λ i h.
        gone.bytes (v.ptr + i)
          (ground (arith, kept.owner (v.ptr + i), cap-owned b sys vv i (omega (arith, sum_bytes))))
          (sep (v.ptr + i) (v-inside i (omega (arith, sum_bytes))))
        ∙ kept.byte (v.ptr + i) (cap-owned b sys vv i (omega (arith, sum_bytes)))
            (within-below _ _ _ (omega arith));
    new = λ i h.
        let a = v.ptr + v.len * elem + i in
        gone.bytes a (ground (arith, kept.owner a, new-owned i h)) (sep a (new-inside i h))
        ∙ there i h;
    vec = record {
      is_layout = vv.is_layout;
      in_cap = fits;
      held = λ pos. gone.others v.ptr (layout_of elem align v.cap) pos vv.is_layout sep (
          holding-stays c s c.mmap m m1 v.ptr _ (kept.block v.ptr) (λ a g. kept.owner a)
            (vv.held pos));
    };
    ok = gone.ok;
    released = gone.released;
    owners = λ a h. gone.owners a h ∙ kept.owner a;
    bytes = λ a h away gap.
        gone.bytes a (ground (arith, kept.owner a)) gap
        ∙ kept.byte a h (
            within-sup v.ptr (extent c s elem align v) _ _ a (omega arith)
              (omega (arith, sum_bytes, cap-extent b sys vv)) away);
    others = λ r l pos vl off_v off_w h.
        gone.others r l pos vl off_w
          (holding-stays c s c.mmap m m1 r l (kept.block r) (λ a g. kept.owner a) h);
  }

module _ {c : Config} (b : IsBuilt c) {s : Sys} (sys : IsSys s) (small : sys.page_bits ≤ b.bits)
    (gigantic : sys.page_bits ≤ 30) (reserve : RawVec → ℕ → Mem → Outcome (RawVec × Mem))
    (elem align : ℕ) (v w : RawVec) (m : Mem) (vv : IsVec c s elem align v m)
    (vw : IsVec c s elem align w m) (sep : Separate c s elem align v w)
    (fits : v.len + w.len ≤ v.cap) (ok : s.Ok m) where
  no_overlap :
      (leb (w.ptr + w.len * elem) (v.ptr + v.len * elem)
        || leb (v.ptr + v.len * elem + w.len * elem) w.ptr)
      ≡ true
  no_overlap =
      disjoint-leb v.ptr _ w.ptr _ (v.len * elem) (w.len * elem) sep
        (omega (arith, sum_bytes b sys elem align v w m vv vw sep fits, cap-extent b sys vv))
        (omega (arith, mul-le-mul_right elem vw.in_cap, cap-extent b sys vw))

  pub extend-Appends :
      reserve v w.len m ≡ done (v, m)
      → Returns (λ r. Appends c s elem align v w m r.0 r.1) (extend reserve c s elem align v w m)
  unfolding extend
  extend-Appends enough =
      let m1 = copy w.ptr (v.ptr + v.len * elem) (w.len * elem) m in
      rw (enough, no_overlap)
        (Returns-bind (λ r. Appends c s elem align v w m r.0 r.1) _
          (λ m2 gone.
            finish b sys elem align v w m vv vw sep fits m1 m2 (copy-Kept _ _ _ m)
              (λ i h. copy-there _ _ _ i m h) gone)
          (free_buffer c s elem align w m1)
          (free_buffer-Freed b sys small gigantic elem align w m1
            (record {
              is_layout = vw.is_layout;
              in_cap = vw.in_cap;
              held = λ pos. holding-stays c s c.mmap m m1 w.ptr _ refl (λ a h. refl) (vw.held pos);
            })
            (copy_ok sys _ _ _ m ok
              (λ a h. range-owned b sys elem align v w m vv vw sep fits a h))))
